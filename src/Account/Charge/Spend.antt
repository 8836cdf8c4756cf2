-- ===== src/Account/Charge/Spend.antt =====
-- What a charge takes from the balance.
use lets_embed.Prelude.{
  ℕ, ◌-◌, ◌≤◌, ◌≡◌, refl, ◌∙◌, Bool, false, Option, arith, unwrap_or, inl, inr, Bool-cases,
  if◌then◌else◌,
}
use lets_embed.Prelude.Int.{ℤ, pos, ◌≤ℤ◌}
use lets_embed.Prelude.Words.{sub_i64-pos, i64_max}
use lets_embed.Config.{Plan}
use lets_embed.Account.Wire.{ChargeKind, image, video, search, embed_search, ChargeReq}
use lets_embed.Account.Decide.{ChargeSource, balance, refuse, decide_charge, view_cost}
use lets_embed.Account.Storage.{Storage, balance_of}
use lets_embed.Account.Status.{ensure_init}
use lets_embed.Account.Charge.{
  is_repeat, drawn, settled, source_of, charge_new, charge_open, charge,
}
use lets_embed.Account.Charge.Frame.{balance-recorded}

-- The cost as a natural number.
abbrev pub price : ChargeKind → ℕ
price image = 1
price video = 5
price search = 100
price embed_search = 10

pub view_cost-eq-price : (kind : ChargeKind) → view_cost kind ≡ pos (price kind)
unfolding view_cost
view_cost-eq-price image = refl
view_cost-eq-price video = refl
view_cost-eq-price search = refl
view_cost-eq-price embed_search = refl

abbrev pub spent_by : ChargeSource → ChargeKind → ℕ
spent_by balance kind = price kind
spent_by _ kind = 0

-- Points leave the balance only if it covers the cost.
decide_charge_balance :
    (plan : Option Plan) (active : Bool) (kind : ChargeKind) (views searches funds cost : ℤ)
    → decide_charge plan active kind views searches funds cost ≡ balance
    → cost ≤ℤ funds
unfolding decide_charge
decide_charge_balance plan active kind views searches funds cost h = ground arith

spent_by-le :
    (source : ChargeSource) (kind : ChargeKind) {funds : ℕ}
    → (source ≡ balance → price kind ≤ funds)
    → spent_by source kind ≤ funds
spent_by-le balance kind h = h refl
spent_by-le _ kind h = omega arith

balance-settled :
    (source : ChargeSource) (now : ℕ) (req : ChargeReq) (s : Storage) {funds : ℕ}
    → balance_of s ≡ pos funds
    → funds ≤ i64_max
    → (source ≡ balance → price req.kind ≤ funds)
    → balance_of (settled source now req s).1 ≡ pos (funds - spent_by source req.kind)
unfolding settled drawn
balance-settled refuse now req s holds fits h = holds ∙ (ground arith)
balance-settled balance now req s holds fits h =
    balance-recorded now req.path _ _ s _
    ∙ (rw (holds, view_cost-eq-price req.kind) (sub_i64-pos _ (price req.kind) (h refl) fits))
balance-settled _ now req s holds fits h =
    balance-recorded now req.path _ _ s _ ∙ holds ∙ (ground arith)

-- What a charge takes from an account that has had its grant.
unfoldable pub spent : ℕ → ChargeReq → Storage → ℕ
spent now req s =
    if unwrap_or s.banned false
    then 0
    else if is_repeat now req.path s
    then 0
    else spent_by (source_of now req s) req.kind

module _ (now : ℕ) (req : ChargeReq) (s : Storage) {funds : ℕ} (holds : balance_of s ≡ pos funds)
    (fits : funds ≤ i64_max) where
  covered : source_of now req s ≡ balance → price req.kind ≤ funds
  unfolding source_of
  covered e = ground (
    arith,
    decide_charge_balance _ _ req.kind _ _ (balance_of s) (view_cost req.kind) e,
    view_cost-eq-price req.kind,
  )

  -- A charge takes nothing, or the whole cost of its kind if the balance covers it.
  spend_open :
      unwrap_or s.banned false ≡ false
      → (spent now req s ≤ funds)
        × (balance_of (charge_open now req s).1 ≡ pos (funds - spent now req s))
  unfolding spent charge_open charge_new
  spend_open free = elim (Bool-cases (is_repeat now req.path s)) [
    | inl e ↦ rw (free, e) (omega arith, holds ∙ (ground arith))
    | inr e ↦
        rw (free, e)
          (
            spent_by-le (source_of now req s) req.kind covered,
            balance-settled (source_of now req s) now req s holds fits covered,
          )
  ]

-- On an account whose balance after the grant is a number `funds` within i64, a charge costs at
-- most the balance, and the balance falls by exactly what `spent` says: nothing for a banned
-- account, a repeat or a charge that a plan covers or that is refused, and the cost of the kind
-- otherwise.
pub charge-spends :
    (now : ℕ) (req : ChargeReq) (s : Storage) {funds : ℕ}
    → balance_of (ensure_init s) ≡ pos funds
    → funds ≤ i64_max
    → let cost = spent now req (ensure_init s) in
      (cost ≤ funds) × (balance_of (charge now req s).1 ≡ pos (funds - cost))
unfolding charge
charge-spends now req s holds fits =
    let t = ensure_init s in
    elim (Bool-cases (unwrap_or t.banned false)) [
      | inl banned ↦ rw banned (unfold spent in rw banned (omega arith, holds ∙ (ground arith)))
      | inr free ↦ rw free (spend_open now req t holds fits free)
    ]
