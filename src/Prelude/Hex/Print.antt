-- ===== src/Prelude/Hex/Print.antt =====
-- Hexadecimal text of a fixed width, as `format!("{:064x}")` prints it, and what reading it gives.
use native.Mathlib.Nat.{div-div-eq-div-mul, div-add-mod', mod-lt, one-le-pow, pow-suc, mul_comm}
use Prim.Native.Nat.{ℕ, zero, suc, ◌+◌, ◌-◌, ◌*◌, ◌/◌, ◌%◌, ◌^◌, ◌≤◌, ◌<◌}
use Prim.Native.Nat.add
use mathlib.Core.Path.{◌≡◌, refl, sym, ap, ◌∙◌}
use mathlib.Core.Bool.{true, false, not, ◌||◌}
use mathlib.Core.Option.{some}
use mathlib.Core.List.{[], ◌∷◌, ◌++◌}
use native.Mathlib.Omega.{arith}
use lets_embed.Prelude.Tests.{ltb, ◌==◌, if◌then◌else◌}
use lets_embed.Prelude.Lists.{length, all, any}
use lets_embed.Prelude.Words.{u128_mod}
use lets_embed.Prelude.Text.{Str}
use lets_embed.Prelude.Hex.{to_digit, is_hex_digit, parse_digits, from_str_radix_16}

abbrev hex_char : ℕ → ℕ
hex_char d = if ltb d 10 then b'0' + d else b'a' - 10 + d

-- The last `k` digits of `n`, the first one first.
unfoldable pub to_hex : ℕ → ℕ → Str
to_hex zero n = []
to_hex (suc k) n = hex_char (n / 16 ^ k % 16) ∷ to_hex k n

pub to_digit-hex_char : (d : ℕ) → d < 16 → to_digit (hex_char d) ≡ some d
unfolding to_digit
to_digit-hex_char d h = ground arith

pub length-to_hex : (k n : ℕ) → length (to_hex k n) ≡ k
unfolding to_hex
length-to_hex zero n = refl
length-to_hex (suc k) n = ap suc (length-to_hex k n)

pub all-to_hex : (k n : ℕ) → all is_hex_digit (to_hex k n) ≡ true
unfolding to_hex
all-to_hex zero n = refl
all-to_hex (suc k) n =
    rw (to_digit-hex_char (n / 16 ^ k % 16) (mod-lt _ (omega arith))) (all-to_hex k n)

-- One more digit in front.
lead_digit : (m n : ℕ) → n % (m * 16) ≡ n / m % 16 * m + n % m
lead_digit m n =
    let quotient : n / m ≡ n / (m * 16) * 16 + n / m % 16 =
      omega (arith, div-add-mod' (n / m) 16, div-div-eq-div-mul n m 16) in
    omega (arith, div-add-mod' n (m * 16), div-add-mod' n m, ap (λ (t : ℕ). t * m) quotient)

lead : (k n : ℕ) → n % 16 ^ suc k ≡ n / 16 ^ k % 16 * 16 ^ k + n % 16 ^ k
lead k n = rw (pow-suc 16 k) (lead_digit (16 ^ k) n)

parse_step :
    (acc c d : ℕ) (s : Str)
    → to_digit c ≡ some d
    → acc * 16 + d < u128_mod
    → parse_digits acc (c ∷ s) ≡ parse_digits (acc * 16 + d) s
unfolding parse_digits
parse_step acc c d s digit room = ground arith

pub parse-to_hex :
    (k n acc : ℕ)
    → acc * 16 ^ k + n % 16 ^ k < u128_mod
    → parse_digits acc (to_hex k n) ≡ some (acc * 16 ^ k + n % 16 ^ k)
unfolding to_hex parse_digits
parse-to_hex zero n acc h = ap some (omega arith)
parse-to_hex (suc k) n acc h =
    let d = n / 16 ^ k % 16 in
    let m = 16 ^ k in
    let total : acc * 16 ^ suc k + n % 16 ^ suc k ≡ (acc * 16 + d) * m + n % m =
      omega (arith, lead k n, ap (λ (t : ℕ). acc * t) (pow-suc 16 k)) in
    let unit : 1 ≤ m = one-le-pow k 16 (omega arith) in
    let grows : acc * 16 + d ≤ (acc * 16 + d) * m = grind arith in
    parse_step acc (hex_char d) d (to_hex k n) (to_digit-hex_char d (mod-lt (n / m) (omega arith)))
      (omega arith)
    ∙ parse-to_hex k n (acc * 16 + d) (omega arith)
    ∙ ap some (sym total)

pow-add : (j k : ℕ) → 16 ^ (j + k) ≡ 16 ^ j * 16 ^ k
pow-add zero k = rw add.zero (omega arith)
pow-add (suc j) k =
    rw (add.suc, pow-suc 16 (j + k), pow-suc 16 j)
      (omega (arith, ap (λ (t : ℕ). t * 16) (pow-add j k)))

-- The first `j` of `j + k` digits are those of the quotient.
pub to_hex-add : (j k n : ℕ) → to_hex (j + k) n ≡ to_hex j (n / 16 ^ k) ++ to_hex k n
unfolding to_hex
to_hex-add zero k n = rw add.zero
to_hex-add (suc j) k n =
    let digit : n / 16 ^ (j + k) ≡ n / 16 ^ k / 16 ^ j =
      rw (pow-add j k, mul_comm (16 ^ j) (16 ^ k)) (sym (div-div-eq-div-mul n (16 ^ k) (16 ^ j))) in
    rw (add.suc j k, digit, to_hex-add j k n)

nonzero_lead :
    (d m r : ℕ) → 1 ≤ m → (not (hex_char d == b'0') || not (r == 0)) ≡ not (d * m + r == 0)
nonzero_lead zero m r h = ground arith
nonzero_lead (suc d) m r h = let more : 1 ≤ suc d * m = grind arith in ground arith

-- A digit other than zero is seen.
pub any_nonzero : (k n : ℕ) → any (λ b. not (b == b'0')) (to_hex k n) ≡ not (n % 16 ^ k == 0)
unfolding to_hex
any_nonzero zero n = ground arith
any_nonzero (suc k) n =
    rw (any_nonzero k n, lead k n)
      (nonzero_lead (n / 16 ^ k % 16) (16 ^ k) (n % 16 ^ k) (one-le-pow k 16 (omega arith)))

plain_text :
    (c : ℕ) (s : Str) → (c == b'+') ≡ false → from_str_radix_16 (c ∷ s) ≡ parse_digits 0 (c ∷ s)
unfolding from_str_radix_16
plain_text c s h = rw h refl

hex_char-ne-plus : (d : ℕ) → d < 16 → (hex_char d == b'+') ≡ false
hex_char-ne-plus d h = ground arith

-- Reading what was printed gives the number back.
pub from_str_radix_16-to_hex :
    (k n : ℕ)
    → n % 16 ^ suc k < u128_mod
    → from_str_radix_16 (to_hex (suc k) n) ≡ some (n % 16 ^ suc k)
unfolding to_hex
from_str_radix_16-to_hex k n h =
    let d = n / 16 ^ k % 16 in
    plain_text (hex_char d) (to_hex k n) (hex_char-ne-plus d (mod-lt (n / 16 ^ k) (omega arith)))
    ∙ parse-to_hex (suc k) n 0 (omega arith)
    ∙ ap some (omega arith)
