-- ===== src/Config.antt =====
-- Prices, windows and the subscription plans (user_worker/src/config.rs).
pub mod Tokens
pub mod Listed
use lets_embed.Prelude.{ℕ, Option, none, some, List, [], ◌∷◌, find, ◌*◌, ◌^◌}
use lets_embed.Prelude.Int.{ℤ, pos}
use lets_embed.Prelude.Text.{Str, codes, str_eq}

abbrev pub points_per_usd : ℕ
points_per_usd = 10000

abbrev pub cost_image_view : ℤ
cost_image_view = pos 1

abbrev pub cost_video_view : ℤ
cost_video_view = pos 5

abbrev pub cost_search : ℤ
cost_search = pos 100

abbrev pub cost_embed_search : ℤ
cost_embed_search = pos 10

abbrev pub free_grant_points : ℤ
free_grant_points = pos 3000

abbrev pub min_topup_points : ℤ
min_topup_points = pos 1000

abbrev pub window_secs : ℕ
window_secs = 5 * 3600

abbrev pub dedupe_window_secs : ℕ
dedupe_window_secs = 86400

abbrev pub session_ttl_secs : ℕ
session_ttl_secs = 7 * 86400

abbrev pub siwe_max_age_secs : ℕ
siwe_max_age_secs = 600

abbrev pub min_confirmations : ℕ
min_confirmations = 6

abbrev pub chainlink_max_stale_secs : ℕ
chainlink_max_stale_secs = 86400

pub record Plan : Type 0 where
  pub id : Str
  pub price_points : ℤ
  -- `none` is unlimited.
  pub views_per_window : Option ℤ
  pub searches_per_window : ℤ
  pub period_secs : ℕ

abbrev pub basic : Plan
basic = record {
  id = codes "basic";
  price_points = pos 20000;
  views_per_window = some (pos 2000);
  searches_per_window = pos 10;
  period_secs = 30 * 86400;
}

abbrev pub pro : Plan
pro = record {
  id = codes "pro";
  price_points = pos 50000;
  views_per_window = none;
  searches_per_window = pos 50;
  period_secs = 30 * 86400;
}

abbrev pub plans : List Plan
plans = basic ∷ pro ∷ []

-- `config::plan`.
unfoldable pub plan : Str → Option Plan
plan id = find (λ p. str_eq p.id id) plans
