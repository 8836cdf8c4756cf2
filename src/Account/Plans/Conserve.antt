-- ===== src/Account/Plans/Conserve.antt =====
-- Buying, switching and cancelling a plan moves points between the balance and the unused part of
-- the period, and neither makes nor loses any.
use lets_embed.Prelude.{
  ◌∙◌, ℕ, ◌+◌, ◌-◌, ◌≤◌, ◌<◌, ◌≡◌, refl, ap, ap₂, sym, subst, ◌⊎◌, inl, inr, ◌&&◌, true, false,
  Option, none, some, arith, Option-cases, ltb, if◌then◌else◌, Bool-cases,
}
use lets_embed.Prelude.Int.{pos, pos_part, sub_ℕ, ltb_ℤ, max_ℤ, ◌-ℤ◌}
use lets_embed.Prelude.Words.{wrap_i64-eq_self, add_i64-pos, sub_i64, add_u64, u64_mod, i64_max}
use lets_embed.Prelude.Text.{Str, codes}
use lets_embed.Config.{Plan, plan}
use lets_embed.Config.Listed.{period, IsListed, plan-IsListed, plan-id}
use lets_embed.Account.Wire.{SubscribeReq, error_reply, status_reply, Reply}
use lets_embed.Account.Storage.{Storage, balance_of, period_end_of}
use lets_embed.Account.Status.{plan_active, status_resp}
use lets_embed.Account.Plans.{refund_of, with_plan, subscribe_to, subscribe, refunded, unsubscribe}
use lets_embed.Account.Plans.Refund.{
  price_of, unused, refund_of-eq-unused, unused-le-price, price_of-le, share-period,
}

-- The machine arithmetic of a purchase, at a price, a refund and a balance.
module _ (price refund funds : ℕ) (price_le : price ≤ 50000) (refund_le : refund ≤ 50000) where
  net_cost : sub_i64 (pos price) (pos refund) ≡ sub_ℕ price refund
  unfolding ◌-ℤ◌
  net_cost =
      wrap_i64-eq_self (pos price -ℤ pos refund) (ground arith) (ground arith) ∙ (ground arith)

  affordable :
      funds ≤ i64_max
      → (ltb_ℤ (pos 0) (sub_ℕ price refund) && ltb_ℤ (pos funds) (sub_ℕ price refund))
        ≡ ltb (funds + refund) price
  affordable h = ground arith

  exact_balance :
      price ≤ funds + refund → pos funds -ℤ sub_ℕ price refund ≡ pos (funds + refund - price)
  unfolding ◌-ℤ◌
  exact_balance k = ground arith

  new_balance :
      funds + refund ≤ i64_max
      → price ≤ funds + refund
      → max_ℤ (sub_i64 (pos funds) (sub_ℕ price refund)) (pos 0) ≡ pos (funds + refund - price)
  new_balance h k =
      rw
        (
          exact_balance k,
          wrap_i64-eq_self (pos (funds + refund - price)) (omega arith) (omega arith),
        )
        (ground arith)

-- An account with `funds` on its balance, at a time and within sums that the machine can hold.
module _ (now : ℕ) (s : Storage) {funds : ℕ} (holds : balance_of s ≡ pos funds)
    (ends : period_end_of s < u64_mod) (fits : funds + unused now s ≤ i64_max) where
  unused_le : unused now s ≤ 50000
  unused_le = omega (arith, unused-le-price now s, price_of-le s)

  -- What a successful purchase of `target` stores.
  abbrev pub bought : Plan → Storage
  bought target = with_plan now target (pos (funds + unused now s - pos_part target.price_points)) s

  cost-eq :
      (target : Plan)
      → IsListed target
      → sub_i64 target.price_points (refund_of now s)
        ≡ sub_ℕ (pos_part target.price_points) (unused now s)
  cost-eq target listed =
      ap₂ sub_i64 listed.price_points (refund_of-eq-unused now s ends)
      ∙ net_cost (pos_part target.price_points) (unused now s) funds listed.price_le unused_le

  -- A purchase succeeds exactly if the balance and the refund cover the price.
  pub subscribe_to_lem :
      (later : ℕ) (target : Plan)
      → IsListed target
      → subscribe_to now later target s ≡ (
          if ltb (funds + unused now s) (pos_part target.price_points)
          then (error_reply (codes "insufficient balance") 402, s)
          else (status_reply (status_resp later (bought target)) 200, bought target))
  unfolding subscribe_to
  subscribe_to_lem later target listed =
      let price = pos_part target.price_points in
      let refund = unused now s in
      let test = affordable price refund funds listed.price_le unused_le (omega arith) in
      let exact = new_balance price refund funds listed.price_le unused_le (omega arith) in
      elim (Bool-cases (ltb (funds + refund) price)) [
        | inl short ↦ rw (cost-eq target listed, holds, test, short)
        | inr enough ↦ rw (cost-eq target listed, holds, test, enough, exact (ground arith))
      ]

  -- What `subscribe` answers and stores, by exact arithmetic.
  abbrev pub outcome : ℕ → Option Plan → Reply × Storage
  outcome later none = (error_reply (codes "unknown plan") 400, s)
  outcome later (some target) =
      if ltb (funds + unused now s) (pos_part target.price_points)
      then (error_reply (codes "insufficient balance") 402, s)
      else (status_reply (status_resp later (bought target)) 200, bought target)

  -- On an account with a balance of `funds` that fits into i64 together with the unused part of
  -- the plan, and with an end of its period within u64, a purchase answers and stores what exact
  -- arithmetic says: an unknown plan and one that balance and refund do not cover are refused
  -- without a change, any other costs the price less the refund.
  pub subscribe-eq-outcome :
      (later : ℕ) (req : SubscribeReq) → subscribe now later req s ≡ outcome later (plan req.plan)
  unfolding subscribe
  subscribe-eq-outcome later req = elim (Option-cases (plan req.plan)) [
    | inl e ↦ rw (e, subscribe)
    | inr (p, e) ↦ rw (e, subscribe) (subscribe_to_lem later p (plan-IsListed req.plan p e))
  ]

  init-outcome : (later : ℕ) (o : Option Plan) → (outcome later o).1.init ≡ s.init
  unfolding with_plan
  init-outcome later none = refl
  init-outcome later (some target) = ground arith

  pub init-subscribe :
      (later : ℕ) (req : SubscribeReq) → (subscribe now later req s).1.init ≡ s.init
  init-subscribe later req = rw subscribe-eq-outcome (init-outcome later (plan req.plan))

  module _ (soon : now + period < u64_mod) where
    unused-bought :
        (target : Plan)
        → IsListed target
        → plan target.id ≡ some target
        → unused now (bought target) ≡ pos_part target.price_points
    unfolding unused price_of plan_active with_plan
    unused-bought target listed found =
        let ends_at : add_u64 now target.period_secs ≡ now + period = omega arith in
        let whole : now + period - now ≡ period = omega arith in
        rw (found, ends_at, whole) (ground (arith, share-period (pos_part target.price_points)))

    -- The balance and the unused part of the period add up to what they were; the storage is
    -- unchanged, or the plan `id` is paid for a whole period from now.
    abbrev pub Conserved : Str → Storage → Type 0
    Conserved id s' =
        (n : ℕ) × (balance_of s' ≡ pos n)
        × (n + unused now s' ≡ funds + unused now s)
        × ((s' ≡ s)
            ⊎ ((s'.plan ≡ some id)
                × (s'.period_end ≡ some (now + period))
                × (plan_active s' (now + period - 1) ≡ true)))

    bought-Conserved :
        (target : Plan)
        → IsListed target
        → plan target.id ≡ some target
        → pos_part target.price_points ≤ funds + unused now s
        → Conserved target.id (bought target)
    unfolding with_plan plan_active
    bought-Conserved target listed found enough =
        let ends_at : add_u64 now target.period_secs ≡ now + period = omega arith in
        (
          funds + unused now s - pos_part target.price_points,
          refl,
          omega (arith, unused-bought target listed found),
          inr (refl, ap some ends_at, rw ends_at (ground arith)),
        )

    outcome-Conserved :
        (later : ℕ) (id : Str) (o : Option Plan) → plan id ≡ o → Conserved id (outcome later o).1
    outcome-Conserved later id none e = (funds, holds, refl, inl refl)
    outcome-Conserved later id (some target) e =
        elim (Bool-cases (ltb (funds + unused now s) (pos_part target.price_points))) [
          | inl short ↦ rw short (funds, holds, refl, inl refl)
          | inr enough ↦ rw enough (
              subst (λ k. Conserved k (bought target)) (plan-id id target e)
                (bought-Conserved target (plan-IsListed id target e)
                  (subst (λ k. plan k ≡ some target) (sym (plan-id id target e)) e) (ground arith)))
        ]

    -- On an account with a balance of `funds` that fits into i64 together with the unused part of
    -- the plan, and with an end of its period within u64, at a time from which a period does not
    -- overflow u64, the balance and the unused part of the period add up to what they were after
    -- any purchase, and either nothing changed or the plan is paid for a whole period from now.
    pub subscribe-conserves :
        (later : ℕ) (req : SubscribeReq) → Conserved req.plan (subscribe now later req s).1
    subscribe-conserves later req =
        rw subscribe-eq-outcome (outcome-Conserved later req.plan (plan req.plan) refl)

  unused_idle : plan_active s now ≡ false → unused now s ≡ 0
  unfolding unused
  unused_idle idle = rw idle

  balance-refunded : balance_of (refunded now s) ≡ pos (funds + unused now s)
  balance-refunded = elim (Bool-cases (plan_active s now)) [
    | inl active ↦
        rw (active, holds, refund_of-eq-unused now s ends, add_i64-pos funds (unused now s) fits)
    | inr idle ↦ rw (idle, holds, unused_idle idle) (ground arith)
  ]

  -- On an account with a balance of `funds` that fits into i64 together with the unused part of
  -- the plan, and with an end of its period within u64, cancelling pays the unused part of the
  -- period out in full, removes the plan, and leaves nothing to be refunded at any later time.
  pub unsubscribe-conserves :
      (later : ℕ)
      → let s' = (unsubscribe now later s).1 in
        (balance_of s' ≡ pos (funds + unused now s))
        × (s'.plan ≡ none)
        × ((t : ℕ) → unused t s' ≡ 0)
  unfolding unsubscribe unused plan_active
  unsubscribe-conserves later = (balance-refunded, refl, λ t. refl)
