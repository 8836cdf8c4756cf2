-- ===== src/Prelude/Text.antt =====
-- A Rust string as the list of its code points, with the tests and the standard methods that the
-- program uses. `to_lowercase` maps the ASCII letters and leaves every other code point alone:
-- no code point outside ASCII has a lower case among the hexadecimal digits or `x`.
use Prim.Native.Char.{code}
use Prim.Native.String.{String}
use Prim.Native.Nat.{ℕ, ◌+◌}
use mathlib.Core.Path.{◌≡◌, refl}
use mathlib.Core.Logic.{◌↔◌}
use mathlib.Core.Bool.{Bool, true, false, ◌&&◌, ◌||◌}
use mathlib.Core.List.{List, [], ◌∷◌, map, reverse}
use mathlib.Core.Option.{Option, none, some}
use native.Mathlib.Omega.{arith}
use lets_embed.Prelude.Tests.{leb, ◌==◌, if◌then◌else◌}
use lets_embed.Prelude.Maps.{Key}

abbrev pub Str : Type 0
Str = List ℕ

-- A text literal.
abbrev pub codes : String → Str
codes String.[] = []
codes (String.◌∷◌ c s) = code c ∷ codes s

unfoldable pub str_eq : Str → Str → Bool
str_eq [] [] = true
str_eq [] (b ∷ t) = false
str_eq (a ∷ s) [] = false
str_eq (a ∷ s) (b ∷ t) = a == b && str_eq s t

pub str_eq_iff : (s t : Str) → (str_eq s t ≡ true) ↔ (s ≡ t)
unfolding str_eq
str_eq_iff [] [] = ground arith
str_eq_iff [] (b ∷ t) = ground arith
str_eq_iff (a ∷ s) [] = ground arith
str_eq_iff (a ∷ s) (b ∷ t) = ground (arith, str_eq_iff s t)

pub str_eq_refl : (s : Str) → str_eq s s ≡ true
str_eq_refl s = (str_eq_iff s s).1 refl

instance abbrev pub str_key : Key Str
str_key = record { is_same = str_eq; is_same_iff = str_eq_iff }

-- `str::strip_prefix`.
unfoldable pub strip_prefix : Str → Str → Option Str
strip_prefix [] s = some s
strip_prefix (p ∷ ps) [] = none
strip_prefix (p ∷ ps) (c ∷ s) = if p == c then strip_prefix ps s else none

abbrev pub in_range : ℕ → ℕ → ℕ → Bool
in_range lo hi c = leb lo c && leb c hi

-- The code points with the property White_Space, which `trim` removes.
abbrev pub is_whitespace : ℕ → Bool
is_whitespace c =
    in_range 0x9 0xd c
    || c == 0x20
    || c == 0x85
    || c == 0xa0
    || c == 0x1680
    || in_range 0x2000 0x200a c
    || c == 0x2028
    || c == 0x2029
    || c == 0x202f
    || c == 0x205f
    || c == 0x3000

trim_start : Str → Str
trim_start [] = []
trim_start (c ∷ s) = if is_whitespace c then trim_start s else c ∷ s

unfoldable pub trim : Str → Str
unfolding trim_start
trim s = reverse (trim_start (reverse (trim_start s)))

unfoldable pub lower : ℕ → ℕ
lower c = if in_range b'A' b'Z' c then c + 32 else c

unfoldable pub to_lowercase : Str → Str
unfolding lower
to_lowercase s = map lower s
