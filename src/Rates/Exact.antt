-- ===== src/Rates/Exact.antt =====
-- Points are the exact value of an amount, rounded down once and capped.
use native.Mathlib.Nat.{
  div-div-eq-div-mul, mod-eq_of_lt, one-le-pow, le-div_iff_mul-le, div-mul-le_self,
  mul-le-mul_right,
}
use lets_embed.Prelude.{
  ℕ, ◌+◌, ◌*◌, ◌/◌, ◌%◌, ◌^◌, ◌≤◌, ◌<◌, ◌≡◌, Option, unwrap_or, arith, ltb, true, false, Bool-cases,
  inl, inr,
}
use lets_embed.Prelude.Words.{u128_mod, i64_max}
use lets_embed.Rates.{points_for, points_of_usd, checked_mul, saturate}

-- At most `i64::MAX`, whatever the amount.
pub points_for-le :
    (amount decimals : ℕ) (price : Option ℕ) → points_for amount decimals price ≤ i64_max
unfolding points_for
points_for-le amount decimals price = ground arith

-- The last two steps round like one, and their overflow lies above the cap.
points_of_usd-eq : (usd : ℕ) → points_of_usd (checked_mul usd 10000) ≡ saturate (usd / 10000)
points_of_usd-eq usd = ground arith

div_mono : (m x y : ℕ) → 0 < m → x ≤ y → x / m ≤ y / m
div_mono m x y pos le = (le-div_iff_mul-le pos).1 (omega (arith, div-mul-le_self x m))

div-add-le : (m x y : ℕ) → 0 < m → x / m + y / m ≤ (x + y) / m
div-add-le m x y pos =
    (le-div_iff_mul-le pos).1 (omega (arith, div-mul-le_self x m, div-mul-le_self y m))

saturate_mono : (x y : ℕ) → x ≤ y → saturate x ≤ saturate y
saturate_mono x y le = ground arith

saturate-add : (x y z : ℕ) → x + y ≤ z → z ≤ i64_max → saturate x + saturate y ≤ saturate z
saturate-add x y z sum cap = ground arith

module _ (decimals : ℕ) (scale : 10 ^ decimals < u128_mod) where
  unit_pos : 0 < 10 ^ decimals
  unit_pos = one-le-pow decimals 10 (omega arith)

  unit_eq : 10 ^ decimals % u128_mod ≡ 10 ^ decimals
  unit_eq = mod-eq_of_lt scale

  -- For a number of decimals whose power of ten fits into u128, and while the product of amount
  -- and price does, the points are amount * price / (10^decimals * 10000) rounded down once, or
  -- i64::MAX if that is larger.
  pub points_for-exact :
      (amount : ℕ) (price : Option ℕ)
      → amount * unwrap_or price 100000000 < u128_mod
      → points_for amount decimals price
        ≡ saturate (amount * unwrap_or price 100000000 / (10 ^ decimals * 10000))
  unfolding points_for
  points_for-exact amount price fits =
      let product = amount * unwrap_or price 100000000 in
      let test : ltb product u128_mod ≡ true = ground arith in
      rw (
        test,
        unit_eq,
        points_of_usd-eq (product / 10 ^ decimals),
        div-div-eq-div-mul product (10 ^ decimals) 10000,
      )

  points_for-capped :
      (amount : ℕ) (price : Option ℕ)
      → ltb (amount * unwrap_or price 100000000) u128_mod ≡ false
      → points_for amount decimals price ≡ i64_max
  unfolding points_for
  points_for-capped amount price large = rw large

  -- For a number of decimals whose power of ten fits into u128, a larger amount is never worth
  -- fewer points, capped or not.
  pub points_for_mono :
      (a b : ℕ) (price : Option ℕ)
      → a ≤ b
      → points_for a decimals price ≤ points_for b decimals price
  points_for_mono a b price le =
      let p = unwrap_or price 100000000 in
      let products : a * p ≤ b * p = mul-le-mul_right p le in
      elim (Bool-cases (ltb (b * p) u128_mod)) [
        | inl small ↦
            rw (points_for-exact a price (ground arith), points_for-exact b price (ground arith))
              (saturate_mono _ _ (
                div_mono (10 ^ decimals * 10000) (a * p) (b * p) (omega (arith, unit_pos))
                  products))
        | inr large ↦ rw (points_for-capped b price large) (points_for-le a decimals price)
      ]

  -- For a number of decimals whose power of ten fits into u128, two amounts whose sum is priced
  -- within u128 and i64 are never worth more points than their sum.
  pub points_for-add :
      (a b : ℕ) (price : Option ℕ)
      → (a + b) * unwrap_or price 100000000 < u128_mod
      → (a + b) * unwrap_or price 100000000 / (10 ^ decimals * 10000) ≤ i64_max
      → points_for a decimals price + points_for b decimals price
        ≤ points_for (a + b) decimals price
  points_for-add a b price fits cap =
      let p = unwrap_or price 100000000 in
      let m = 10 ^ decimals * 10000 in
      let distrib : (a + b) * p ≡ a * p + b * p = omega arith in
      let sum : a * p / m + b * p / m ≤ (a + b) * p / m =
        rw distrib (div-add-le m (a * p) (b * p) (omega (arith, unit_pos))) in
      rw
        (
          points_for-exact a price (omega arith),
          points_for-exact b price (omega arith),
          points_for-exact (a + b) price fits,
        )
        (saturate-add (a * p / m) (b * p / m) ((a + b) * p / m) sum cap)
