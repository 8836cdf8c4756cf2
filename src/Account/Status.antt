-- ===== src/Account/Status.antt =====
-- What the handlers of user_worker/src/account_do.rs share: the free grant, the active plan and
-- the status report.
use lets_embed.Prelude.{
  ℕ, Bool, true, false, not, ◌&&◌, Option, none, some, ltb, is_some, unwrap_or, and_then,
  if◌then◌else◌, [],
}
use lets_embed.Prelude.Int.{ℤ, pos}
use lets_embed.Config
use lets_embed.Config.{Plan}
use lets_embed.Account.Wire.{StatusResp}
use lets_embed.Account.Decide.{should_roll, views_remaining, searches_remaining, window_reset}
use lets_embed.Account.Storage.{Storage, balance_of, period_end_of}

abbrev pub grant : Option Bool → Storage → Storage
grant none s = record s { balance = some Config.free_grant_points; init = some true }
grant (some _) s = s

unfoldable pub ensure_init : Storage → Storage
ensure_init s = grant s.init s

unfoldable pub plan_active : Storage → ℕ → Bool
plan_active s now = is_some s.plan && ltb now (period_end_of s)

unfoldable pub window_fields : Storage → Bool → Option Plan → ℕ → Option ℤ × Option ℤ × ℕ
window_fields s active plan now =
    let is_open = active && not (should_roll s.win_start now) in
    let win_views = if is_open then unwrap_or s.win_views (pos 0) else pos 0 in
    let win_search = if is_open then unwrap_or s.win_search (pos 0) else pos 0 in
    (
      views_remaining plan active win_views,
      searches_remaining plan active win_search,
      window_reset active s.win_start now,
    )

unfoldable pub status_resp : ℕ → Storage → StatusResp
unfolding plan_active window_fields
status_resp now s =
    let active = plan_active s now in
    let (views, searches, reset) = window_fields s active (and_then s.plan Config.plan) now in
    record {
      address = unwrap_or s.address [];
      balance = balance_of s;
      plan = s.plan;
      period_end = if active then period_end_of s else 0;
      views_remaining = views;
      searches_remaining = searches;
      window_reset = reset;
      banned = unwrap_or s.banned false;
      total_views = unwrap_or s.total_views (pos 0);
    }
