-- ===== src/Prelude/Utf8.antt =====
-- `String::from_utf8_lossy`: what is not UTF-8 is replaced, one replacement for each longest start of
-- a character. A text stays a list of bytes.
use Prim.Native.Nat.{ℕ, zero, suc}
use mathlib.Core.Path.{◌≡◌, refl, ap}
use mathlib.Core.Bool.{true, ◌||◌}
use mathlib.Core.List.{[], ◌∷◌, ◌++◌}
use native.Mathlib.Omega.{arith}
use lets_embed.Prelude.Tests.{ltb, ◌==◌, if◌then◌else◌}
use lets_embed.Prelude.Lists.{all}
use lets_embed.Prelude.Text.{Str, in_range}

-- Between characters, or after the bytes `got` of one, with the range of its next byte and the
-- number of bytes after that one.
pub data Progress : Type 0 where
  between : Progress
  within : Str → ℕ → ℕ → ℕ → Progress

abbrev replacement : Str
replacement = 0xef ∷ 0xbf ∷ 0xbd ∷ []

-- The first byte of a character.
abbrev first_byte : ℕ → Str × Progress
first_byte c =
    if ltb c 0x80
    then (c ∷ [], between)
    else if in_range 0xc2 0xdf c
    then ([], within (c ∷ []) 0x80 0xbf 0)
    else if c == 0xe0
    then ([], within (c ∷ []) 0xa0 0xbf 1)
    else if in_range 0xe1 0xec c || in_range 0xee 0xef c
    then ([], within (c ∷ []) 0x80 0xbf 1)
    else if c == 0xed
    then ([], within (c ∷ []) 0x80 0x9f 1)
    else if c == 0xf0
    then ([], within (c ∷ []) 0x90 0xbf 2)
    else if in_range 0xf1 0xf3 c
    then ([], within (c ∷ []) 0x80 0xbf 2)
    else if c == 0xf4
    then ([], within (c ∷ []) 0x80 0x8f 2)
    else (replacement, between)

abbrev later_byte : Str → ℕ → ℕ → Str × Progress
later_byte got c zero = (got ++ (c ∷ []), between)
later_byte got c (suc n) = ([], within (got ++ (c ∷ [])) 0x80 0xbf n)

abbrev take_byte : Progress → ℕ → Str × Progress
take_byte between c = first_byte c
take_byte (within got lo hi left) c =
    if in_range lo hi c
    then later_byte got c left
    else (replacement ++ (first_byte c).0, (first_byte c).1)

unfoldable pub lossy_from : Progress → Str → Str
lossy_from between [] = []
lossy_from (within got lo hi left) [] = replacement
lossy_from p (c ∷ s) = (take_byte p c).0 ++ lossy_from (take_byte p c).1 s

-- `String::from_utf8_lossy`.
abbrev pub from_utf8_lossy : Str → Str
from_utf8_lossy s = lossy_from between s

-- Text that is UTF-8 already.
abbrev pub IsUtf8 : Str → Type 0
IsUtf8 s = from_utf8_lossy s ≡ s

-- ASCII text is left alone.
pub lossy-append :
    (a s : Str) → all (λ c. ltb c 0x80) a ≡ true → from_utf8_lossy (a ++ s) ≡ a ++ from_utf8_lossy s
unfolding lossy_from
lossy-append [] s h = refl
lossy-append (c ∷ a) s h =
    let low : ltb c 0x80 ≡ true = ground arith in
    rw low (ap (λ t. c ∷ t) (lossy-append a s (ground arith)))
