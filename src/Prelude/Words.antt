-- ===== src/Prelude/Words.antt =====
-- Machine integers: `u64` and `u128` are natural numbers below a power of two, and `i64` is an
-- integer in its range. A release build wraps, and so do the operations here.
use Prim.Native.Nat.{ℕ, ◌+◌, ◌-◌, ◌*◌, ◌%◌, ◌^◌, ◌≤◌, ◌<◌}
use mathlib.Core.Path.{◌≡◌}
use native.Mathlib.Omega.{arith}
use lets_embed.Prelude.Tests.{ltb, if◌then◌else◌}
use lets_embed.Prelude.Int.{ℤ, pos, negsuc, ◌+ℤ◌, ◌-ℤ◌, pos_part, neg_part}

abbrev pub u64_mod : ℕ
u64_mod = 2 ^ 64

abbrev pub u128_mod : ℕ
u128_mod = 2 ^ 128

abbrev pub i64_half : ℕ
i64_half = 2 ^ 63

-- `i64::MAX`.
abbrev pub i64_max : ℕ
i64_max = 2 ^ 63 - 1

abbrev pub add_u64 : ℕ → ℕ → ℕ
add_u64 a b = (a + b) % u64_mod

abbrev pub sub_u64 : ℕ → ℕ → ℕ
sub_u64 a b = (a + u64_mod - b) % u64_mod

abbrev pub mul_u64 : ℕ → ℕ → ℕ
mul_u64 a b = (a * b) % u64_mod

-- The integer that a 64-bit pattern stands for in two's complement (`as i64`).
unfoldable pub of_bits : ℕ → ℤ
of_bits r = if ltb r i64_half then pos r else negsuc (u64_mod - 1 - r)

-- An integer reduced to the range of `i64`.
unfoldable pub wrap_i64 : ℤ → ℤ
unfolding of_bits
wrap_i64 (pos n) = of_bits (n % u64_mod)
wrap_i64 (negsuc n) = of_bits (u64_mod - 1 - n % u64_mod)

abbrev pub add_i64 : ℤ → ℤ → ℤ
add_i64 a b = wrap_i64 (a +ℤ b)

abbrev pub sub_i64 : ℤ → ℤ → ℤ
sub_i64 a b = wrap_i64 (a -ℤ b)

abbrev pub InI64 : ℤ → Type 0
InI64 z = (pos_part z ≤ i64_max) × (neg_part z ≤ i64_half)

pub wrap_i64-InI64 : (z : ℤ) → InI64 (wrap_i64 z)
unfolding wrap_i64
wrap_i64-InI64 (pos n) = ground arith
wrap_i64-InI64 (negsuc n) = ground arith

pub wrap_i64-eq_self : (z : ℤ) → pos_part z ≤ i64_max → neg_part z ≤ i64_half → wrap_i64 z ≡ z
unfolding wrap_i64
wrap_i64-eq_self (pos n) h k = ground arith
wrap_i64-eq_self (negsuc n) h k = ground arith

pub of_bits-eq-pos : (n : ℕ) → n < i64_half → of_bits n ≡ pos n
unfolding of_bits
of_bits-eq-pos n h = ground arith

-- The exact cases of the sum and the difference.
+ℤ-pos : (a b : ℕ) → pos a +ℤ pos b ≡ pos (a + b)
unfolding ◌+ℤ◌
+ℤ-pos a b = ground arith

-ℤ-pos : (a b : ℕ) → b ≤ a → pos a -ℤ pos b ≡ pos (a - b)
unfolding ◌-ℤ◌
-ℤ-pos a b h = ground arith

pub add_i64-pos : (a b : ℕ) → a + b ≤ i64_max → add_i64 (pos a) (pos b) ≡ pos (a + b)
add_i64-pos a b h = rw (+ℤ-pos a b) (wrap_i64-eq_self (pos (a + b)) h (omega arith))

pub sub_i64-pos : (a b : ℕ) → b ≤ a → a ≤ i64_max → sub_i64 (pos a) (pos b) ≡ pos (a - b)
sub_i64-pos a b h k = rw (-ℤ-pos a b h) (wrap_i64-eq_self (pos (a - b)) (omega arith) (omega arith))
