-- ===== src/Prelude/Hex.antt =====
-- Hexadecimal text: `char::to_digit(16)` and `u128::from_str_radix(_, 16)`, which takes digits of
-- either case, one leading `+`, and refuses an empty text and an overflow.
pub mod Print
use Prim.Native.Nat.{ℕ, zero, suc, ◌+◌, ◌-◌, ◌*◌, ◌/◌, ◌%◌, ◌^◌, ◌≤◌, ◌<◌}
use mathlib.Core.Path.{◌≡◌, refl}
use mathlib.Core.Bool.{Bool, true, false}
use mathlib.Core.Option.{Option, none, some}
use mathlib.Core.List.{List, [], ◌∷◌, ◌++◌}
use native.Mathlib.Omega.{arith}
use lets_embed.Prelude.Tests.{ltb, leb, ◌==◌, if◌then◌else◌, is_some}
use lets_embed.Prelude.Words.{u128_mod}
use lets_embed.Prelude.Text.{Str, in_range}

unfoldable pub to_digit : ℕ → Option ℕ
to_digit c =
    if in_range b'0' b'9' c
    then some (c - b'0')
    else if in_range b'a' b'f' c
    then some (c - b'a' + 10)
    else if in_range b'A' b'F' c
    then some (c - b'A' + 10)
    else none

-- `b.is_ascii_hexdigit()`.
abbrev pub is_hex_digit : ℕ → Bool
is_hex_digit c = is_some (to_digit c)

unfoldable pub parse_digits : ℕ → Str → Option ℕ
parse_digits acc [] = some acc
parse_digits acc (c ∷ s) = elim (to_digit c) [
  | none ↦ none
  | some d ↦
      let rest = parse_digits (acc * 16 + d) s in if ltb (acc * 16 + d) u128_mod then rest else none
]

abbrev unsigned : Str → Option ℕ
unsigned [] = none
unsigned (c ∷ s) = parse_digits 0 (c ∷ s)

unfoldable pub from_str_radix_16 : Str → Option ℕ
from_str_radix_16 [] = none
from_str_radix_16 (c ∷ s) = if c == b'+' then unsigned s else unsigned (c ∷ s)
