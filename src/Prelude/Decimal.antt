-- ===== src/Prelude/Decimal.antt =====
-- Decimal text: `to_string` of a number, and `str::parse`, which takes one leading `+` and refuses
-- an empty text, other bytes and an overflow.
use Prim.Native.Nat.{ℕ, zero, suc, ◌+◌, ◌-◌, ◌*◌, ◌/◌, ◌%◌, ◌^◌, ◌<◌}
use mathlib.Core.Path.{◌≡◌, refl, sym, ap, ◌∙◌}
use mathlib.Core.Bool.{true, false, ◌&&◌}
use mathlib.Core.Option.{Option, none, some}
use mathlib.Core.List.{[], ◌∷◌, ◌++◌}
use native.Mathlib.Nat.{pow-suc}
use native.Mathlib.Omega.{arith}
use lets_embed.Prelude.Tests.{ltb, ◌==◌, if◌then◌else◌, and_then, Bool-cases, Option-cases}
use lets_embed.Prelude.Lists.{all, all-append}
use mathlib.Core.Logic.{inl, inr}
use lets_embed.Prelude.Text.{Str, in_range}

abbrev pub digit_onto : ℕ → ℕ → ℕ → Option ℕ
digit_onto bound acc c =
    let n = acc * 10 + (c - b'0') in if in_range b'0' b'9' c && ltb n bound then some n else none

unfoldable pub digits : ℕ → ℕ → Str → Option ℕ
digits bound acc [] = some acc
digits bound acc (c ∷ s) = and_then (digit_onto bound acc c) (λ n. digits bound n s)

abbrev some_digits : ℕ → Str → Option ℕ
some_digits bound [] = none
some_digits bound (c ∷ s) = digits bound 0 (c ∷ s)

-- `s.parse()` into the numbers below `bound`.
unfoldable pub parse_decimal : ℕ → Str → Option ℕ
parse_decimal bound [] = none
parse_decimal bound (c ∷ s) = if c == b'+' then some_digits bound s else some_digits bound (c ∷ s)

-- `n.to_string()`; a number has at most `fuel + 1` digits.
unfoldable pub decimal : ℕ → ℕ → Str
decimal zero n = (b'0' + n % 10) ∷ []
decimal (suc fuel) n =
    let lead = decimal fuel (n / 10) in
    if ltb n 10 then (b'0' + n) ∷ [] else lead ++ ((b'0' + n % 10) ∷ [])

digits-append :
    (bound acc : ℕ) (s t : Str)
    → digits bound acc (s ++ t) ≡ and_then (digits bound acc s) (λ n. digits bound n t)
unfolding digits
digits-append bound acc [] t = refl
digits-append bound acc (c ∷ s) t = elim (Option-cases (digit_onto bound acc c)) [
  | inl e ↦ rw e refl
  | inr (n, e) ↦ rw e (digits-append bound n s t)
]

last_digit : (bound n : ℕ) → n < bound → digits bound (n / 10) ((b'0' + n % 10) ∷ []) ≡ some n
unfolding digits
last_digit bound n h = ground arith

digits-decimal :
    (bound fuel n : ℕ) → n < 10 ^ suc fuel → n < bound → digits bound 0 (decimal fuel n) ≡ some n
unfolding decimal digits
digits-decimal bound zero n h k = ground arith
digits-decimal bound (suc fuel) n h k = elim (Bool-cases (ltb n 10)) [
  | inl small ↦ rw small (ground arith)
  | inr large ↦
      let smaller : n / 10 < 10 ^ suc fuel = omega (arith, pow-suc 10 (suc fuel)) in
      rw
        (
          large,
          digits-append bound 0 (decimal fuel (n / 10)) ((b'0' + n % 10) ∷ []),
          digits-decimal bound fuel (n / 10) smaller (omega arith),
        )
        (last_digit bound n k)
]

-- A printed number starts with a digit.
decimal_head :
    (fuel n : ℕ) → (c : ℕ) × (s : Str) × (decimal fuel n ≡ c ∷ s) × (in_range b'0' b'9' c ≡ true)
unfolding decimal
decimal_head zero n = (b'0' + n % 10, [], refl, ground arith)
decimal_head (suc fuel) n = elim (Bool-cases (ltb n 10)) [
  | inl small ↦ (b'0' + n, [], rw small refl, ground arith)
  | inr large ↦
      let (c, s, e, d) = decimal_head fuel (n / 10) in
      (c, s ++ ((b'0' + n % 10) ∷ []), rw (large, e) refl, d)
]

pub parse_unsigned :
    (bound c : ℕ) (s : Str)
    → in_range b'0' b'9' c ≡ true
    → parse_decimal bound (c ∷ s) ≡ digits bound 0 (c ∷ s)
unfolding parse_decimal
parse_unsigned bound c s d = let plain : (c == b'+') ≡ false = ground arith in rw plain refl

-- Reading a printed number gives it back.
pub parse_decimal-decimal :
    (bound fuel n : ℕ)
    → n < 10 ^ suc fuel
    → n < bound
    → parse_decimal bound (decimal fuel n) ≡ some n
parse_decimal-decimal bound fuel n h k =
    let (c, s, e, d) = decimal_head fuel n in
    ap (parse_decimal bound) e
    ∙ parse_unsigned bound c s d
    ∙ sym (ap (digits bound 0) e)
    ∙ digits-decimal bound fuel n h k

-- A printed number holds digits only.
pub decimal_digits : (fuel n : ℕ) → all (in_range b'0' b'9') (decimal fuel n) ≡ true
unfolding decimal
decimal_digits zero n = ground arith
decimal_digits (suc fuel) n = elim (Bool-cases (ltb n 10)) [
  | inl small ↦ rw small (ground arith)
  | inr large ↦ rw large (
      all-append (in_range b'0' b'9') (decimal fuel (n / 10)) ((b'0' + n % 10) ∷ [])
        (decimal_digits fuel (n / 10)) (ground arith))
]
