-- ===== src/Prelude/Options.antt =====
-- The `?` operator on `Option`.
use mathlib.Core.Path.{◌≡◌, refl}
use mathlib.Core.Bool.{Bool, true, false}
use native.Mathlib.Omega.{arith}
use lets_embed.Prelude.Tests.{if◌then◌else◌}
use mathlib.Core.Option.{Option, none, some}

infixl 5 ◌>>=◌ ◌>>◌
module _ {ℓ κ} {A : Type ℓ} {B : Type κ} where
  abbrev pub ◌>>=◌ : Option A → (A → Option B) → Option B
  ◌>>=◌ none next = none
  ◌>>=◌ (some a) next = next a

  abbrev pub ◌>>◌ : Option A → Option B → Option B
  ◌>>◌ none rest = none
  ◌>>◌ (some _) rest = rest

-- An early return, unless the test holds.
abbrev pub when : Bool → Option {0} Unit
when passes = if passes then some tt else none

-- What an answer says of the steps before it.
module _ {ℓ κ} {A : Type ℓ} {B : Type κ} where
  pub bind_some :
      (o : Option A) (next : A → Option B) (b : B)
      → (o >>= next) ≡ some b
      → (a : A) × (o ≡ some a) × (next a ≡ some b)
  bind_some none next b h = absurd (ground arith)
  bind_some (some a) next b h = (a, refl, h)

pub when-some {κ} :
    {B : Type κ} (passes : Bool) (rest : Option B) (b : B)
    → (when passes >> rest) ≡ some b
    → (passes ≡ true) × (rest ≡ some b)
when-some true rest b h = (refl, h)
when-some false rest b h = absurd (ground arith)
