-- ===== src/Account/Solvent/Life.antt =====
-- Solvency over every life of an account object.
use lets_embed.Prelude.{
  ℕ, ◌+◌, ◌≤◌, ◌<◌, ◌≡◌, refl, ap, sym, subst, ◌∙◌, Bool, Option, none, some, List, [], ◌∷◌, arith,
  inl, inr, Option-cases, unwrap_or,
}
use native.Mathlib.Nat.{add-zero, add_assoc}
use lets_embed.Prelude.Int.{ℤ, pos, pos_part, neg_part}
use lets_embed.Prelude.Words.{i64_max, i64_half, u64_mod}
use lets_embed.Config.Listed.{period}
use lets_embed.Account.Wire.{ChargeReq, CreditReq, InitReq, SubscribeReq, BanReq}
use lets_embed.Account.Storage.{Storage, untouched, balance_of, period_end_of}
use lets_embed.Account.Status.{ensure_init, plan_active}
use lets_embed.Account.Charge.{charge}
use lets_embed.Account.Charge.Frame.{charge-SameAccount}
use lets_embed.Account.Charge.Spend.{charge-spends}
use lets_embed.Account.Credit.{credit}
use lets_embed.Account.Plans.{subscribe, unsubscribe, alarm}
use lets_embed.Account.Plans.Conserve.{init-subscribe, subscribe-conserves, unsubscribe-conserves}
use lets_embed.Account.Plans.Refund.{price_of, unused}
use lets_embed.Account.Object.{
  Event, on_init, on_charge, on_credit, on_status, on_subscribe, on_unsubscribe, on_ban, on_alarm,
  handle, init, ban, Tick, step, run,
}
use lets_embed.Account.Solvent.{
  IsSolvent, IsSolvent-keep, IsSolvent-worth, IsSolvent-later, unused-eq, ensure_init-IsSolvent,
}
use lets_embed.Account.Solvent.Credit.{credited-le, credit_fresh, credit_replay, credit-OnlyCredit}

abbrev received : Option Bool → ℤ → ℕ
received none points = pos_part points
received (some _) points = 0

-- The points that an event pays in: those of a credit whose key is fresh.
abbrev pub paid_in : Event → Storage → ℕ
paid_in (on_credit req) s = received (s.credit req.key) req.points
paid_in _ s = 0

module _ (now paid : ℕ) (s : Storage) (v : IsSolvent now paid s)
    (room : 3000 + paid ≤ i64_max) where
  charge-IsSolvent : (req : ChargeReq) → IsSolvent now paid (charge now req s).1
  charge-IsSolvent req =
      let w = ensure_init-IsSolvent now paid s v in
      let same = charge-SameAccount now req s in
      let (fits, spends) = charge-spends now req s w.holds (omega (arith, w.covered)) in
      IsSolvent-keep now paid (ensure_init s) (charge now req s).1 _ w same.plan same.period_end
        same.init spends (omega arith)

  fits : pos_part (balance_of s) + unused now s ≤ i64_max
  fits = omega (arith, v.covered)

  period_end-subscribe :
      (later : ℕ) (req : SubscribeReq)
      → now + period < u64_mod
      → period_end_of (subscribe now later req s).1 < u64_mod
  period_end-subscribe later req soon =
      let (n, holds, total, shape) = subscribe-conserves now s v.holds v.ends fits soon later req in
      elim shape [
        | inl same ↦ subst (λ k. period_end_of k < u64_mod) (sym same) v.ends
        | inr (_, ends, _) ↦ rw ends soon
      ]

  subscribe-IsSolvent :
      (later : ℕ) (req : SubscribeReq)
      → now + period < u64_mod
      → IsSolvent now (paid + 0) (subscribe now later req s).1
  subscribe-IsSolvent later req soon =
      let (n, holds, total, shape) = subscribe-conserves now s v.holds v.ends fits soon later req in
      IsSolvent-worth now paid 0 s (subscribe now later req s).1 n v holds (omega arith)
        (init-subscribe now s v.holds v.ends fits later req) (period_end-subscribe later req soon)

  init-unsubscribe : (later : ℕ) → (unsubscribe now later s).1.init ≡ s.init
  unfolding unsubscribe
  init-unsubscribe later = ground arith

  period_end-unsubscribe : (later : ℕ) → period_end_of (unsubscribe now later s).1 < u64_mod
  unfolding unsubscribe
  period_end-unsubscribe later = omega arith

  unsubscribe-IsSolvent : (later : ℕ) → IsSolvent now (paid + 0) (unsubscribe now later s).1
  unsubscribe-IsSolvent later =
      let (holds, _, gone) = unsubscribe-conserves now s v.holds v.ends fits later in
      IsSolvent-worth now paid 0 s (unsubscribe now later s).1 _ v holds (omega (arith, gone now))
        (init-unsubscribe later) (period_end-unsubscribe later)

  -- The alarm touches neither the balance nor the end of the period.
  alarm_keeps :
      (balance_of (alarm now s).1 ≡ balance_of s)
      × ((alarm now s).1.init ≡ s.init)
      × ((alarm now s).1.period_end ≡ s.period_end)
      × (unused now (alarm now s).1 ≤ unused now s)
  unfolding alarm unused price_of plan_active
  alarm_keeps = (ground arith, ground arith, ground arith, ground arith)

  alarm-IsSolvent : IsSolvent now (paid + 0) (alarm now s).1
  alarm-IsSolvent =
      let (same, i, e, less) = alarm_keeps in
      IsSolvent-worth now paid 0 s (alarm now s).1 _ v (same ∙ v.holds) (omega arith) i
        (rw e v.ends)

  -- A fresh credit adds at most its points, and a replay none.
  credit-IsSolvent :
      (req : CreditReq)
      → 3000 + (paid + received (s.credit req.key) req.points) ≤ i64_max
      → neg_part req.points ≤ i64_half
      → IsSolvent now (paid + received (s.credit req.key) req.points) (credit req s).1
  credit-IsSolvent req fits_in h =
      let only = credit-OnlyCredit req s in
      let same = unused-eq now s (credit req s).1 only.plan only.period_end in
      elim (Option-cases (s.credit req.key)) [
        | inl fresh ↦
            let count : received (s.credit req.key) req.points ≡ pos_part req.points = rw fresh in
            let (_, sum, _) =
              credit_fresh req s fresh v.holds (omega (arith, v.covered, count)) h in
            IsSolvent-worth now paid _ s _ _ v (ap (λ (o : Option ℤ). unwrap_or o (pos 0)) sum)
              (omega (arith, count, same, credited-le (pos_part (balance_of s)) req.points))
              only.init (rw only.period_end v.ends)
        | inr (b, marked) ↦
            IsSolvent-worth now paid _ s _ (pos_part (balance_of s)) v
              (rw (credit_replay req s marked) v.holds) (omega (arith, same)) only.init
              (rw only.period_end v.ends)
      ]

  init-IsSolvent : (later : ℕ) (req : InitReq) → IsSolvent now paid (init later req s).1
  unfolding init
  init-IsSolvent later req =
      let w = ensure_init-IsSolvent now paid s v in
      IsSolvent-keep now paid (ensure_init s) _ _ w refl refl refl w.holds (omega arith)

  ban-IsSolvent : (later : ℕ) (req : BanReq) → IsSolvent now paid (ban later req s).1
  unfolding ban
  ban-IsSolvent later req = IsSolvent-keep now paid s _ _ v refl refl refl v.holds (omega arith)

-- The ranges of the machine, and the time that a new plan needs.
abbrev pub IsRequest : Event → Type 0
IsRequest (on_credit req) = neg_part req.points ≤ i64_half
IsRequest _ = Unit

-- Any single event, on an account that is solvent with `paid` points paid in, leaves it solvent
-- with what the event pays in added, if a deduction is within i64, a period from now ends within
-- u64, and the grant and the points paid in fit into i64.
pub handle-IsSolvent :
    (now later paid : ℕ) (e : Event) (s : Storage)
    → IsSolvent now paid s
    → IsRequest e
    → now + period < u64_mod
    → 3000 + (paid + paid_in e s) ≤ i64_max
    → IsSolvent now (paid + paid_in e s) (handle now later e s).1
unfolding handle
handle-IsSolvent now later paid (on_credit req) s v h soon room =
    credit-IsSolvent now paid s v (omega arith) req room h
handle-IsSolvent now later paid (on_subscribe req) s v h soon room =
    subscribe-IsSolvent now paid s v (omega arith) later req soon
handle-IsSolvent now later paid on_unsubscribe s v h soon room =
    unsubscribe-IsSolvent now paid s v (omega arith) later
handle-IsSolvent now later paid on_alarm s v h soon room =
    alarm-IsSolvent now paid s v (omega arith)
handle-IsSolvent now later paid (on_init req) s v h soon room =
    rw add-zero (init-IsSolvent now paid s v (omega arith) later req)
handle-IsSolvent now later paid (on_charge req) s v h soon room =
    rw add-zero (charge-IsSolvent now paid s v (omega arith) req)
handle-IsSolvent now later paid (on_ban req) s v h soon room =
    rw add-zero (ban-IsSolvent now paid s v (omega arith) later req)
handle-IsSolvent now later paid on_status s v h soon room = rw add-zero v

-- A life in the order of time, and what it pays in.
abbrev pub InOrder : ℕ → List Tick → Type 0
InOrder now [] = Unit
InOrder now (t ∷ ts) =
    (now ≤ t.now) × (t.now + period < u64_mod) × IsRequest t.event × InOrder t.now ts

abbrev pub total_paid : List Tick → Storage → ℕ
total_paid [] s = 0
total_paid (t ∷ ts) s = paid_in t.event s + total_paid ts (step t s)

-- The time of the last event.
abbrev pub end_of : ℕ → List Tick → ℕ
end_of now [] = now
end_of now (t ∷ ts) = end_of t.now ts

pub run-IsSolvent :
    (now paid : ℕ) (ts : List Tick) (s : Storage)
    → IsSolvent now paid s
    → InOrder now ts
    → 3000 + (paid + total_paid ts s) ≤ i64_max
    → IsSolvent (end_of now ts) (paid + total_paid ts s) (run ts s)
unfolding run
run-IsSolvent now paid [] s v order room = rw add-zero v
run-IsSolvent now paid (t ∷ ts) s v order room =
    rw (← add_assoc paid (paid_in t.event s) (total_paid ts (step t s))) (
      run-IsSolvent t.now (paid + paid_in t.event s) ts (step t s)
        (handle-IsSolvent t.now t.later paid t.event s (IsSolvent-later now t.now paid s order.0 v)
          order.2 order.1 (omega arith))
        order.3 (omega arith))

untouched-IsSolvent : IsSolvent 0 0 untouched
unfolding unused plan_active
untouched-IsSolvent = record { holds = refl; covered = omega arith; ends = omega arith }

-- For every life of a new account whose events are in the order of time with room for a period
-- before the end of u64, whose deductions are within i64, and whose grant and paid points together
-- fit into i64, the balance is never negative, and the balance and the unused part of the plan
-- never pass the free grant and the points of the credits under fresh keys.
pub run-solvent :
    (ts : List Tick)
    → InOrder 0 ts
    → 3000 + total_paid ts untouched ≤ i64_max
    → let s = run ts untouched in
      (n : ℕ) × (balance_of s ≡ pos n)
      × (n + unused (end_of 0 ts) s ≤ 3000 + total_paid ts untouched)
run-solvent ts order room =
    let w = run-IsSolvent 0 0 ts untouched untouched-IsSolvent order (omega arith) in
    (pos_part (balance_of (run ts untouched)), w.holds, omega (arith, w.covered))
