-- ===== src/Account/Decide.antt =====
-- The pure decisions of user_worker/src/account_do.rs.
use lets_embed.Prelude.{
  ℕ, ◌-◌, Bool, true, false, ◌&&◌, ◌||◌, Option, none, some, ltb, leb, ◌==◌, and_then,
  if◌then◌else◌, Table,
}
use lets_embed.Prelude.Int.{ℤ, pos, ltb_ℤ, leb_ℤ, max_ℤ, mul_ℕ, div_ℕ}
use lets_embed.Prelude.Words.{add_u64, sub_i64, add_i64, wrap_i64}
use lets_embed.Prelude.Text.{Str}
use Prim.Native.Nat.{min}
use mathlib.Core.Option
use lets_embed.Config
use lets_embed.Config.{Plan}
use lets_embed.Account.Wire.{ChargeKind, image, video, search, embed_search}

unfoldable pub view_cost : ChargeKind → ℤ
view_cost image = Config.cost_image_view
view_cost video = Config.cost_video_view
view_cost search = Config.cost_search
view_cost embed_search = Config.cost_embed_search

-- `HashMap<String, u64>`: the time at which each key was first charged.
abbrev pub SeenMap : Type 0
SeenMap = Table Str ℕ

abbrev pub seen_after : ℕ → Option ℕ → Bool
seen_after cutoff none = false
seen_after cutoff (some first_seen) = ltb cutoff first_seen

-- `saturating_sub` is the subtraction of ℕ.
unfoldable pub is_recent_view : Str → ℕ → SeenMap → SeenMap → Bool
is_recent_view path now today yesterday =
    let cutoff = now - Config.dedupe_window_secs in
    seen_after cutoff (today path) || seen_after cutoff (yesterday path)

unfoldable pub should_roll : Option ℕ → ℕ → Bool
should_roll none now = true
should_roll (some start) now = leb (add_u64 start Config.window_secs) now

pub data ChargeSource : Type 0 where
  free_unlimited window balance refuse : ChargeSource

-- No plan, or the window quota is exhausted.
abbrev pay_as_you_go : ℤ → ℤ → ChargeSource
pay_as_you_go funds cost = if leb_ℤ cost funds then balance else refuse

abbrev from_views : Option ℤ → ℤ → ℤ → ℤ → ChargeSource
from_views none win_views funds cost = free_unlimited
from_views (some limit) win_views funds cost =
    if leb_ℤ (add_i64 win_views cost) limit then window else pay_as_you_go funds cost

abbrev from_plan : Plan → ChargeKind → ℤ → ℤ → ℤ → ℤ → ChargeSource
from_plan plan search win_views win_search funds cost =
    if ltb_ℤ win_search plan.searches_per_window then window else pay_as_you_go funds cost
from_plan plan _ win_views win_search funds cost =
    from_views plan.views_per_window win_views funds cost

-- `funds` is the source's `balance`, which is a constructor here.
unfoldable pub decide_charge : Option Plan → Bool → ChargeKind → ℤ → ℤ → ℤ → ℤ → ChargeSource
decide_charge (some plan) true kind win_views win_search funds cost =
    from_plan plan kind win_views win_search funds cost
decide_charge _ _ kind win_views win_search funds cost = pay_as_you_go funds cost

abbrev left_of : ℤ → ℤ → ℤ
left_of limit used = max_ℤ (sub_i64 limit used) (pos 0)

unfoldable pub views_remaining : Option Plan → Bool → ℤ → Option ℤ
views_remaining plan active win_views =
    if active
    then and_then plan (λ p. Option.map (λ limit. left_of limit win_views) p.views_per_window)
    else none

unfoldable pub searches_remaining : Option Plan → Bool → ℤ → Option ℤ
searches_remaining plan active win_search =
    if active then Option.map (λ p. left_of p.searches_per_window win_search) plan else none

-- `i128` holds every product of an `i64` and a `u64`; its division rounds towards zero.
unfoldable pub prorated_refund : ℤ → ℕ → ℕ → ℤ
prorated_refund price_points period_secs remaining_secs =
    if period_secs == 0
    then pos 0
    else let remaining = min remaining_secs period_secs in
      wrap_i64 (div_ℕ (mul_ℕ price_points remaining) period_secs)

unfoldable pub window_reset : Bool → Option ℕ → ℕ → ℕ
window_reset active none now = 0
window_reset active (some start) now =
    if active && ltb now (add_u64 start Config.window_secs)
    then add_u64 start Config.window_secs
    else 0
