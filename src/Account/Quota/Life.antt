-- ===== src/Account/Quota/Life.antt =====
-- The quotas over a life of the object.
use lets_embed.Prelude.{
  ℕ, ◌≡◌, refl, Bool, false, Option, none, some, unwrap_or, ltb, and_then, is_some, ◌&&◌, inl, inr,
  Bool-cases, Option-cases, List, [], ◌∷◌,
}
use lets_embed.Prelude.Int.{ℤ, pos}
use lets_embed.Prelude.Words.{sub_i64}
use lets_embed.Prelude.Text.{Str}
use lets_embed.Config.{Plan, plan}
use lets_embed.Account.Wire.{ChargeReq, CreditReq, SubscribeReq, Reply}
use lets_embed.Account.Decide.{ChargeSource, refuse, should_roll}
use lets_embed.Account.Storage.{Storage, untouched, balance_of, period_end_of}
use lets_embed.Account.Status.{grant, ensure_init, plan_active}
use lets_embed.Account.Charge.{
  Usage, rolled, recorded, is_repeat, settled, source_of, charge_new, charge_open, charge,
}
use lets_embed.Account.Credit.{credit}
use lets_embed.Account.Plans.{
  insufficient, refund_of, subscribe_to, subscribe, with_plan, unsubscribe, alarm,
}
use lets_embed.Account.Object.{
  on_init, on_charge, on_credit, on_status, on_subscribe, on_unsubscribe, on_ban, on_alarm, Event,
  handle, init, ban, Tick, step, run,
}
use lets_embed.Account.Quota.{WithinQuota, IsMetered, UsageWithin, fresh_within, drawn_within}

pub rolled_within :
    (active : Bool) (now : ℕ) (s : Storage)
    → IsMetered s
    → UsageWithin (and_then s.plan plan) (rolled active now s)
unfolding rolled
rolled_within active now s m = elim (Bool-cases (active && should_roll s.win_start now)) [
  | inl e ↦ rw e (fresh_within s.plan)
  | inr e ↦ rw e m
]

-- An accepted charge stores the counters of its window, or leaves the stored ones.
recorded_within :
    (now : ℕ) (path : Str) (u : Usage) (funds : ℤ) (s : Storage) (reply : Reply)
    → IsMetered s
    → UsageWithin (and_then s.plan plan) u
    → IsMetered (recorded now path u funds s reply).1
unfolding recorded
recorded_within now path u funds s reply m w = elim (Bool-cases u.window_dirty) [
  | inl e ↦ rw e (elim (Option-cases u.win_start) [ inl n ↦ rw n m | inr (start, n) ↦ rw n w ])
  | inr e ↦ rw e m
]

settled_within :
    (source : ChargeSource) (now : ℕ) (req : ChargeReq) (s : Storage)
    → source_of now req s ≡ source
    → IsMetered s
    → IsMetered (settled source now req s).1
unfolding settled
settled_within refuse now req s d m = m
settled_within source now req s d m = recorded_within now req.path _ _ s _ m (
    drawn_within req.kind (rolled (plan_active s now) now s) (balance_of s) s.plan
      (plan_active s now) source (unfold source_of in d)
      (rolled_within (plan_active s now) now s m))

open_within :
    (now : ℕ) (req : ChargeReq) (s : Storage) → IsMetered s → IsMetered (charge_open now req s).1
unfolding charge_open charge_new
open_within now req s m = elim (Bool-cases (is_repeat now req.path s)) [
  | inl e ↦ rw e m
  | inr e ↦ rw e (settled_within (source_of now req s) now req s refl m)
]

grant_within : (o : Option Bool) (s : Storage) → IsMetered s → IsMetered (grant o s)
grant_within none s m = m
grant_within (some b) s m = m

ensure_init_within : (s : Storage) → IsMetered s → IsMetered (ensure_init s)
unfolding ensure_init
ensure_init_within s m = grant_within s.init s m

charge_within :
    (now : ℕ) (req : ChargeReq) (s : Storage) → IsMetered s → IsMetered (charge now req s).1
unfolding charge
charge_within now req s m = elim (Bool-cases (unwrap_or (ensure_init s).banned false)) [
  | inl e ↦ rw e (ensure_init_within s m)
  | inr e ↦ rw e (open_within now req (ensure_init s) (ensure_init_within s m))
]

subscribe_to_within :
    (now later : ℕ) (target : Plan) (s : Storage)
    → WithinQuota (plan target.id) (pos 0) (pos 0)
    → IsMetered s
    → IsMetered (subscribe_to now later target s).1
unfolding subscribe_to with_plan
subscribe_to_within now later target s found m =
    elim (Bool-cases
      (insufficient (balance_of s) (sub_i64 target.price_points (refund_of now s)))) [
        | inl e ↦ rw e m
        | inr e ↦ rw e found
      ]

credit_within : (req : CreditReq) (s : Storage) → IsMetered s → IsMetered (credit req s).1
unfolding credit
credit_within req s m = elim (Option-cases (s.credit req.key)) [
  | inl e ↦ rw e m
  | inr (b, e) ↦ rw e m
]

-- A new plan starts with an empty window.
subscribe_within :
    (now later : ℕ) (req : SubscribeReq) (s : Storage)
    → IsMetered s
    → IsMetered (subscribe now later req s).1
unfolding subscribe
subscribe_within now later req s m = elim (Option-cases (plan req.plan)) [
  | inl e ↦ rw (e, subscribe) m
  | inr (target, e) ↦
      rw (e, subscribe) (subscribe_to_within now later target s (fresh_within (some target.id)) m)
]

unsubscribe_within : (now later : ℕ) (s : Storage) → IsMetered (unsubscribe now later s).1
unfolding unsubscribe
unsubscribe_within now later s = tt

alarm_within : (now : ℕ) (s : Storage) → IsMetered s → IsMetered (alarm now s).1
unfolding alarm
alarm_within now s m = elim (Bool-cases (is_some s.plan)) [
  | inl e ↦ rw e (elim (Bool-cases (ltb now (period_end_of s))) [
    | inl early ↦ rw early m
    | inr due ↦ rw due tt
  ])
  | inr e ↦ rw e m
]

handle_within :
    (now later : ℕ) (e : Event) (s : Storage) → IsMetered s → IsMetered (handle now later e s).1
unfolding handle init ban
handle_within now later (on_init req) s m = ensure_init_within s m
handle_within now later (on_charge req) s m = charge_within now req s m
handle_within now later (on_credit req) s m = credit_within req s m
handle_within now later on_status s m = m
handle_within now later (on_subscribe req) s m = subscribe_within now later req s m
handle_within now later on_unsubscribe s m = unsubscribe_within now later s
handle_within now later (on_ban req) s m = m
handle_within now later on_alarm s m = alarm_within now s m

run_within : (ts : List Tick) (s : Storage) → IsMetered s → IsMetered (run ts s)
unfolding run
run_within [] s m = m
run_within (t ∷ ts) s m = run_within ts (step t s) (handle_within t.now t.later t.event s m)

-- Over every life of a new account the stored counters of the window are not negative and stay
-- within the quotas of the stored plan.
pub run-IsMetered : (ts : List Tick) → IsMetered (run ts untouched)
run-IsMetered ts = run_within ts untouched tt
