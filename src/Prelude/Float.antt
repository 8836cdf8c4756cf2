-- ===== src/Prelude/Float.antt =====
-- `as f64` on integers, read back as an integer: the nearest number with 53 binary digits, and of two
-- the one whose last digit is 0.
use Prim.Native.Nat.{ℕ, zero, suc, ◌+◌, ◌*◌, ◌/◌, ◌%◌, ◌<◌}
use mathlib.Core.Path.{◌≡◌, refl, ap}
use mathlib.Core.Bool.{◌&&◌, ◌||◌}
use native.Mathlib.Omega.{arith}
use lets_embed.Prelude.Tests.{ltb, ◌==◌, if◌then◌else◌}
use lets_embed.Prelude.Int.{ℤ, pos, negsuc, sub_ℕ, pos_part, neg_part}

abbrev pub exact_ids : ℕ
exact_ids = 9007199254740992

-- To a multiple of `unit`, halves to the even one.
unfoldable pub round_to : ℕ → ℕ → ℕ
round_to unit n =
    let q = n / unit in
    let twice = 2 * (n % unit) in
    if ltb unit twice || (twice == unit && q % 2 == 1) then (q + 1) * unit else q * unit

-- The value of the last of 53 digits; 11 doublings are enough below 2^64.
unfoldable pub unit_of : ℕ → ℕ → ℕ → ℕ
unit_of zero unit n = unit
unit_of (suc fuel) unit n =
    let wider = unit_of fuel (2 * unit) n in if ltb n (exact_ids * unit) then unit else wider

unfoldable pub nat_f64 : ℕ → ℕ
nat_f64 n = round_to (unit_of 11 1 n) n

unfoldable pub as_f64 : ℤ → ℤ
as_f64 (pos n) = pos (nat_f64 n)
as_f64 (negsuc n) = sub_ℕ 0 (nat_f64 (suc n))

unit_of_lem : (n : ℕ) → n < exact_ids → unit_of 11 1 n ≡ 1
unfolding unit_of
unit_of_lem n h = ground (arith, h)

round_to_lem : (n : ℕ) → round_to 1 n ≡ n
unfolding round_to
round_to_lem n = ground arith

-- Below 2^53 nothing is lost.
pub nat_f64_lem : (n : ℕ) → n < exact_ids → nat_f64 n ≡ n
unfolding nat_f64
nat_f64_lem n h = rw (unit_of_lem n h) (round_to_lem n)

pub as_f64_lem : (z : ℤ) → pos_part z < exact_ids → neg_part z < exact_ids → as_f64 z ≡ z
unfolding as_f64
as_f64_lem (pos n) h k = ap pos (nat_f64_lem n h)
as_f64_lem (negsuc n) h k = rw (nat_f64_lem (suc n) k) (ground arith)

-- The first integer that is lost.
lost : as_f64 (pos 9007199254740993) ≡ pos 9007199254740992
unfolding as_f64 nat_f64 round_to unit_of
lost = refl

upwards : as_f64 (pos 9223372036854775807) ≡ pos 9223372036854775808
unfolding as_f64 nat_f64 round_to unit_of
upwards = refl
