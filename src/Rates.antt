-- ===== src/Rates.antt =====
-- Prices and points (user_worker/src/rates.rs).
pub mod Exact
pub mod RoundData
mod Tests
use lets_embed.Prelude.{
  ℕ, ◌*◌, ◌/◌, ◌%◌, ◌^◌, ltb, leb, Option, none, some, unwrap_or, if◌then◌else◌,
}
use lets_embed.Prelude.Int.{ℤ, pos}
use lets_embed.Prelude.Words.{u128_mod, i64_max}
use lets_embed.Config

-- `u128::checked_mul`.
abbrev pub checked_mul : ℕ → ℕ → Option ℕ
checked_mul a b = if ltb (a * b) u128_mod then some (a * b) else none

-- `i64::try_from(points).unwrap_or(i64::MAX)`.
abbrev pub saturate : ℕ → ℕ
saturate points = if leb points i64_max then points else i64_max

abbrev points_of_usd : Option ℕ → ℕ
points_of_usd none = i64_max
points_of_usd (some num) = saturate (num / 100000000)

abbrev points_of_scaled : Option ℕ → ℕ → ℕ
points_of_scaled none decimals = i64_max
points_of_scaled (some scaled) decimals =
    points_of_usd (checked_mul (scaled / (10 ^ decimals % u128_mod)) Config.points_per_usd)

-- The `i64` result is never negative, so it is a natural number here.
unfoldable pub points_for : ℕ → ℕ → Option ℕ → ℕ
points_for amount_raw decimals price_8dec =
    points_of_scaled (checked_mul amount_raw (unwrap_or price_8dec 100000000)) decimals
