-- ===== src/Account/Charge.antt =====
-- `UserAccount::charge` of user_worker/src/account_do.rs: one metered view or search.
pub mod Frame
pub mod Panic
pub mod Spend
pub mod Seen
pub mod Dedupe
use lets_embed.Prelude.{
  ℕ, number_key, ◌/◌, Bool, true, false, ◌&&◌, Option, none, some, is_some, unwrap_or, and_then,
  not, Table, empty, put, delete, if◌then◌else◌,
}
use lets_embed.Prelude.Int.{ℤ, pos}
use lets_embed.Prelude.Words.{add_i64, sub_i64, sub_u64}
use lets_embed.Prelude.Text.{Str, codes, str_key}
use lets_embed.Config
use lets_embed.Config.{Plan}
use lets_embed.Account.Wire.{
  ChargeKind, image, video, search, embed_search, ChargeReq, ChargeResp, Reply, charge_reply,
  error_reply, panicked,
}
use lets_embed.Account.Decide.{
  SeenMap, ChargeSource, free_unlimited, window, balance, refuse, view_cost, is_recent_view,
  should_roll, decide_charge, views_remaining, searches_remaining, window_reset,
}
use lets_embed.Account.Storage.{Storage, balance_of}
use lets_embed.Account.Status.{ensure_init, plan_active, window_fields}

-- The mutable locals `win_start`, `win_views`, `win_search` and `window_dirty`.
pub record Usage : Type 0 where
  pub win_start : Option ℕ
  pub win_views : ℤ
  pub win_search : ℤ
  pub window_dirty : Bool

-- Roll the usage window if the plan is active and the current one elapsed or was never opened.
unfoldable pub rolled : Bool → ℕ → Storage → Usage
rolled active now s =
    if active && should_roll s.win_start now
    then record { win_start = some now; win_views = pos 0; win_search = pos 0; window_dirty = true }
    else record {
      win_start = s.win_start;
      win_views = unwrap_or s.win_views (pos 0);
      win_search = unwrap_or s.win_search (pos 0);
      window_dirty = false;
    }

abbrev pub counted : ChargeKind → ℤ → Usage → Usage
counted search cost u = record u { win_search = add_i64 u.win_search (pos 1); window_dirty = true }
counted _ cost u = record u { win_views = add_i64 u.win_views cost; window_dirty = true }

-- The `match source` that draws one charge from the window or from the balance.
unfoldable pub drawn : ChargeSource → ChargeKind → ℤ → Usage → ℤ → Usage × ℤ
drawn window kind cost u funds = (counted kind cost u, funds)
drawn balance kind cost u funds = (u, sub_i64 funds cost)
drawn free_unlimited kind cost u funds = (u, funds)
drawn refuse kind cost u funds = (u, funds)

abbrev pub day_of : ℕ → ℕ
day_of now = now / 86400

abbrev with_window : Option ℕ → Usage → Storage → Reply → Reply × Storage
with_window none u s reply = (panicked, s)
with_window (some start) u s reply = (
  reply,
  record s { win_start = some start; win_views = some u.win_views; win_search = some u.win_search },
)

-- The maps after an accepted charge: the one that fell out of the dedupe horizon is dropped on the
-- first charge of a day.
unfoldable pub noted : ℕ → Str → Table ℕ SeenMap → Table ℕ SeenMap
noted now path seen =
    let day = day_of now in
    let today = seen day in
    let kept = if is_some today then seen else delete (sub_u64 day 2) seen in
    put day (put path now (unwrap_or today empty)) kept

-- The writes that follow an accepted charge; a dirty window without a start panics (`expect`).
unfoldable pub recorded : ℕ → Str → Usage → ℤ → Storage → Reply → Reply × Storage
recorded now path u funds s reply =
    let written = record s {
      seen = noted now path s.seen;
      balance = some funds;
      total_views = some (add_i64 (unwrap_or s.total_views (pos 0)) (pos 1));
    } in
    if u.window_dirty then with_window u.win_start u written reply else (reply, written)

abbrev usage_reply : Bool → ℤ → ℤ → Option Plan → Bool → Usage → ℕ → ℕ → Reply
usage_reply charged cost funds plan active u now status =
    charge_reply
      (record {
        charged = charged;
        cost = cost;
        balance = funds;
        views_remaining = views_remaining plan active u.win_views;
        searches_remaining = searches_remaining plan active u.win_search;
        window_reset = window_reset active u.win_start now;
      })
      status

abbrev is_refuse : ChargeSource → Bool
is_refuse refuse = true
is_refuse _ = false

abbrev pub active_plan : Storage → ℕ → Option Plan
active_plan s now = if plan_active s now then and_then s.plan Config.plan else none

-- The end of a charge, once it is decided what it draws from.
unfoldable pub settled : ChargeSource → ℕ → ChargeReq → Storage → Reply × Storage
settled source now req s =
    let cost = view_cost req.kind in
    let active = plan_active s now in
    let plan = active_plan s now in
    let u = rolled active now s in
    let (u', funds) = drawn source req.kind cost u (balance_of s) in
    if is_refuse source
    then (usage_reply false cost (balance_of s) plan active u now 402, s)
    else recorded now req.path u' funds s (usage_reply true cost funds plan active u' now 200)

-- What a charge at `now` draws from.
unfoldable pub source_of : ℕ → ChargeReq → Storage → ChargeSource
source_of now req s =
    let active = plan_active s now in
    let u = rolled active now s in
    decide_charge (active_plan s now) active req.kind u.win_views u.win_search (balance_of s)
      (view_cost req.kind)

-- A charge that is not deduplicated.
unfoldable pub charge_new : ℕ → ChargeReq → Storage → Reply × Storage
charge_new now req s = settled (source_of now req s) now req s

-- Whether the key was charged within the dedupe window, by the maps of today and yesterday.
unfoldable pub is_repeat : ℕ → Str → Storage → Bool
is_repeat now path s =
    let day = day_of now in
    is_recent_view path now (unwrap_or (s.seen day) empty)
      (unwrap_or (s.seen (sub_u64 day 1)) empty)

-- A repeat costs nothing and touches no state.
unfoldable pub repeat_reply : ℕ → ChargeReq → Storage → Reply
repeat_reply now req s =
    let active = plan_active s now in
    let (views, searches, reset) = window_fields s active (active_plan s now) now in
    charge_reply
      (record {
        charged = false;
        cost = view_cost req.kind;
        balance = balance_of s;
        views_remaining = views;
        searches_remaining = searches;
        window_reset = reset;
      })
      200

-- `charge` behind the ban check, on an account that has had its free grant.
unfoldable pub charge_open : ℕ → ChargeReq → Storage → Reply × Storage
charge_open now req s =
    if is_repeat now req.path s then (repeat_reply now req s, s) else charge_new now req s

unfoldable pub charge : ℕ → ChargeReq → Storage → Reply × Storage
charge now req s0 =
    let s = ensure_init s0 in
    if unwrap_or s.banned false
    then (error_reply (codes "banned") 403, s)
    else charge_open now req s
