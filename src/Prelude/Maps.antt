-- ===== src/Prelude/Maps.antt =====
-- Keyed stores as functions, over keys with a Boolean equality.
use mathlib.Core.Path.{◌≡◌}
use mathlib.Core.Logic.{◌↔◌}
use mathlib.Core.Bool.{Bool, true}
use mathlib.Core.Option.{Option, none, some}
use Prim.Native.Nat.{ℕ}
use lets_embed.Prelude.Tests.{◌==◌, ==_iff, if◌then◌else◌}

-- What a type needs to be one of keys.
pub record Key {ℓ} (K : Type ℓ) : Type ℓ where
  pub is_same : K → K → Bool
  pub is_same_iff : (j k : K) → (is_same j k ≡ true) ↔ (j ≡ k)

abbrev same_number : ℕ → ℕ → Bool
same_number j k = j == k

instance abbrev pub number_key : Key ℕ
number_key = record { is_same = same_number; is_same_iff = ==_iff }

abbrev pub Table {ℓ κ} : Type ℓ → Type κ → Type (ℓ ⊔ κ)
Table K V = K → Option V

module _ {ℓ κ} {K : Type ℓ} {V : Type κ} where
  abbrev pub empty : Table K V
  empty j = none

  abbrev pub put : ⦃key : Key K⦄ → K → V → Table K V → Table K V
  put ⦃key⦄ k v m j = if key.is_same k j then some v else m j

  abbrev pub delete : ⦃key : Key K⦄ → K → Table K V → Table K V
  delete ⦃key⦄ k m j = if key.is_same k j then none else m j
