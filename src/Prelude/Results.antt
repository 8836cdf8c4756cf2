-- ===== src/Prelude/Results.antt =====
-- Rust's `Result` with a message, and its `?`.
use mathlib.Core.Path.{◌≡◌, refl}
use mathlib.Core.Logic.{◌⊎◌, inl, inr}
use mathlib.Core.Bool.{Bool, true, false}
use native.Mathlib.Omega.{arith}
use mathlib.Core.Option.{Option, none, some}
use lets_embed.Prelude.Tests.{if◌then◌else◌}
use lets_embed.Prelude.Text.{Str}

pub data Result {ℓ} (A : Type ℓ) : Type ℓ where
  err : Str → Result A
  ok : A → Result A

infixl 5 ◌>>=◌ ◌>>◌
module _ {ℓ κ} {A : Type ℓ} {B : Type κ} where
  abbrev pub ◌>>=◌ : Result A → (A → Result B) → Result B
  ◌>>=◌ (err e) next = err e
  ◌>>=◌ (ok a) next = next a

  abbrev pub ◌>>◌ : Result A → Result B → Result B
  ◌>>◌ (err e) rest = err e
  ◌>>◌ (ok _) rest = rest

-- An early return with an error, unless the test holds.
abbrev pub guard : Bool → Str → Result {0} Unit
guard passes e = if passes then ok tt else err e

-- `Option::ok_or`.
abbrev pub ok_or {ℓ} : {A : Type ℓ} → Option A → Str → Result A
ok_or none e = err e
ok_or (some a) e = ok a

-- A result with the property, if it is one at all.
module _ {ℓ} {A : Type ℓ} where
  unfoldable pub OfOk : (A → Type 0) → Result A → Type 0
  OfOk P (err e) = Unit
  OfOk P (ok a) = P a

module _ {ℓ κ} {A : Type ℓ} {B : Type κ} (P : B → Type 0) where
  pub bind-OfOk :
      (r : Result A) (next : A → Result B) → ((a : A) → OfOk P (next a)) → OfOk P (r >>= next)
  unfolding OfOk
  bind-OfOk (err e) next h = tt
  bind-OfOk (ok a) next h = h a

  pub then-OfOk : (r : Result A) (rest : Result B) → OfOk P rest → OfOk P (r >> rest)
  unfolding OfOk
  then-OfOk (err e) rest h = tt
  then-OfOk (ok a) rest h = h

pub Result-cases {ℓ} :
    {A : Type ℓ} (r : Result A) → ((e : Str) × (r ≡ err e)) ⊎ ((a : A) × (r ≡ ok a))
Result-cases (err e) = inl (e, refl)
Result-cases (ok a) = inr (a, refl)

-- What a result says of the steps before it.
module _ {ℓ κ} {A : Type ℓ} {B : Type κ} where
  pub bind_ok :
      (r : Result A) (next : A → Result B) (b : B)
      → (r >>= next) ≡ ok b
      → (a : A) × (r ≡ ok a) × (next a ≡ ok b)
  bind_ok (err e) next b h = absurd (ground arith)
  bind_ok (ok a) next b h = (a, refl, h)

pub guard-ok {κ} :
    {B : Type κ} (passes : Bool) (e : Str) (rest : Result B) (b : B)
    → (guard passes e >> rest) ≡ ok b
    → (passes ≡ true) × (rest ≡ ok b)
guard-ok true e rest b h = (refl, h)
guard-ok false e rest b h = absurd (ground arith)

pub ok_or-ok {ℓ} : {A : Type ℓ} (o : Option A) (e : Str) (a : A) → ok_or o e ≡ ok a → o ≡ some a
ok_or-ok none e a h = absurd (ground arith)
ok_or-ok (some x) e a h = ground arith
