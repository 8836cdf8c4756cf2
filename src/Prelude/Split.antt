-- ===== src/Prelude/Split.antt =====
-- `str::split`, `str::split_once`, `join` and the tests of prefixes and suffixes, on text as a list
-- of code points or bytes.
use Prim.Native.Nat.{ℕ}
use mathlib.Core.Path.{◌≡◌, refl, ap, ◌∙◌}
use mathlib.Core.Bool.{Bool, true, not}
use mathlib.Core.Option.{Option, none, some}
use mathlib.Core.List.{List, [], ◌∷◌, ◌++◌, reverse, reverse-append, reverse-reverse}
use native.Mathlib.Omega.{arith}
use lets_embed.Prelude.Tests.{◌==◌, if◌then◌else◌, is_some}
use lets_embed.Prelude.Lists.{all}
use lets_embed.Prelude.Text.{Str, strip_prefix}

abbrev onto_first : ℕ → List Str → List Str
onto_first c [] = (c ∷ []) ∷ []
onto_first c (x ∷ xs) = (c ∷ x) ∷ xs

-- `s.split(sep)`: there is always one piece.
unfoldable pub split : ℕ → Str → List Str
split sep [] = [] ∷ []
split sep (c ∷ s) = let rest = split sep s in if c == sep then [] ∷ rest else onto_first c rest

-- `pieces.join(sep)`.
unfoldable pub join : Str → List Str → Str
join sep [] = []
join sep (x ∷ []) = x
join sep (x ∷ y ∷ ys) = x ++ (sep ++ join sep (y ∷ ys))

abbrev onto_left : ℕ → Option (Str × Str) → Option (Str × Str)
onto_left c none = none
onto_left c (some (a, b)) = some (c ∷ a, b)

-- `s.split_once(sep)`.
unfoldable pub split_once : ℕ → Str → Option (Str × Str)
split_once sep [] = none
split_once sep (c ∷ s) =
    let rest = split_once sep s in if c == sep then some ([], s) else onto_left c rest

abbrev pub starts_with : Str → Str → Bool
starts_with p s = is_some (strip_prefix p s)

abbrev reversed : Option Str → Option Str
reversed none = none
reversed (some s) = some (reverse s)

-- `s.strip_suffix(p)`.
unfoldable pub strip_suffix : Str → Str → Option Str
strip_suffix p s = reversed (strip_prefix (reverse p) (reverse s))

-- The separator does not occur.
abbrev pub IsFree : ℕ → Str → Type 0
IsFree sep s = all (λ c. not (c == sep)) s ≡ true

pub split_free : (sep : ℕ) (x : Str) → IsFree sep x → split sep x ≡ x ∷ []
unfolding split
split_free sep [] h = refl
split_free sep (c ∷ x) h = ground (arith, split_free sep x)

pub split-append :
    (sep : ℕ) (x rest : Str) → IsFree sep x → split sep (x ++ (sep ∷ rest)) ≡ x ∷ split sep rest
unfolding split
split-append sep [] rest h = ground arith
split-append sep (c ∷ x) rest h = ground (arith, split-append sep x rest)

pub split_once-append :
    (sep : ℕ) (x rest : Str) → IsFree sep x → split_once sep (x ++ (sep ∷ rest)) ≡ some (x, rest)
unfolding split_once
split_once-append sep [] rest h = ground arith
split_once-append sep (c ∷ x) rest h = ground (arith, split_once-append sep x rest)

pub split_once_free : (sep : ℕ) (x : Str) → IsFree sep x → split_once sep x ≡ none
unfolding split_once
split_once_free sep [] h = refl
split_once_free sep (c ∷ x) h = ground (arith, split_once_free sep x)

pub strip_prefix-append : (p s : Str) → strip_prefix p (p ++ s) ≡ some s
unfolding strip_prefix
strip_prefix-append [] s = refl
strip_prefix-append (c ∷ p) s = ground (arith, strip_prefix-append p s)

pub strip_suffix-append : (p s : Str) → strip_suffix p (s ++ p) ≡ some s
unfolding strip_suffix
strip_suffix-append p s =
    rw (reverse-append s p, strip_prefix-append (reverse p) (reverse s))
      (ap some (reverse-reverse s))

-- Every text is one of these.
abbrev pub AllFree : ℕ → List Str → Type 0
AllFree sep [] = Unit
AllFree sep (x ∷ xs) = IsFree sep x × AllFree sep xs

-- Splitting at the separator takes a joined text apart again.
pub split-join :
    (sep : ℕ) (x : Str) (xs : List Str)
    → AllFree sep (x ∷ xs)
    → split sep (join (sep ∷ []) (x ∷ xs)) ≡ x ∷ xs
unfolding join
split-join sep x [] h = split_free sep x h.0
split-join sep x (y ∷ ys) h =
    split-append sep x (join (sep ∷ []) (y ∷ ys)) h.0 ∙ ap (λ t. x ∷ t) (split-join sep y ys h.1)
