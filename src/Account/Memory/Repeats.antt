-- ===== src/Account/Memory/Repeats.antt =====
-- The dedupe window over a life of the object: what was charged once stays free for a day.
use lets_embed.Prelude.{
  Bool, ℕ, ◌+◌, ◌≤◌, ◌<◌, ◌≡◌, refl, true, false, List, [], ◌∷◌, some, Option, none, is_some,
  unwrap_or, arith, Bool-cases, inl, inr, ◌∙◌,
}
use lets_embed.Prelude.Words.{u64_mod}
use lets_embed.Prelude.Text.{Str, str_eq_refl}
use lets_embed.Account.Wire.{ChargeReq, Reply, charge_reply}
use lets_embed.Account.Decide.{ChargeSource, refuse}
use lets_embed.Account.Storage.{Storage}
use lets_embed.Account.Status.{ensure_init, grant}
use lets_embed.Account.Charge.{
  day_of, charge, charge_open, charge_new, settled, source_of, is_repeat, repeat_reply,
}
use lets_embed.Account.Charge.Frame.{charge-SameAccount}
use lets_embed.Account.Charge.Seen.{first_seen, first_seen-settled, seen-ensure_init}
use lets_embed.Account.Charge.Dedupe.{charge_keeps, is_repeat_since}
use lets_embed.Account.Solvent.Credit.{credit-OnlyCredit}
use lets_embed.Account.Object.{
  Event, on_init, on_charge, on_credit, on_status, on_subscribe, on_unsubscribe, on_ban, on_alarm,
  handle, init, ban, Tick, step, run,
}
use lets_embed.Account.Memory.{
  run-Lasts, subscribe-SameMemory, unsubscribe-SameMemory, alarm-SameMemory, granted,
}

-- Every event happens within the dedupe window that opened at `since`.
abbrev pub Within : ℕ → List Tick → Type 0
Within since [] = Unit
Within since (t ∷ ts) =
    (since ≤ t.now) × (t.now < since + 86400) × (t.now < u64_mod) × Within since ts

module _ (since : ℕ) (started : 0 < since) (path : Str) where
  abbrev IsSeen : Storage → Type 0
  IsSeen s = first_seen (day_of since) path s ≡ some since

  handle_keeps :
      (now later : ℕ) (e : Event) (s : Storage)
      → since ≤ now
      → now < since + 86400
      → now < u64_mod
      → IsSeen s
      → IsSeen (handle now later e s).1
  unfolding handle init ban
  handle_keeps now later (on_init req) s a b c seen = rw seen-ensure_init seen
  handle_keeps now later (on_charge req) s a b c seen =
      charge_keeps since now started a b c path req s seen
  handle_keeps now later (on_credit req) s a b c seen = rw (credit-OnlyCredit req s).seen seen
  handle_keeps now later on_status s a b c seen = seen
  handle_keeps now later (on_subscribe req) s a b c seen =
      rw (subscribe-SameMemory now later req s).seen seen
  handle_keeps now later on_unsubscribe s a b c seen =
      rw (unsubscribe-SameMemory now later s).seen seen
  handle_keeps now later (on_ban req) s a b c seen = seen
  handle_keeps now later on_alarm s a b c seen = rw (alarm-SameMemory now s).seen seen

  run_keeps : (ts : List Tick) (s : Storage) → Within since ts → IsSeen s → IsSeen (run ts s)
  unfolding run
  run_keeps [] s w seen = seen
  run_keeps (t ∷ ts) s w seen =
      run_keeps ts (step t s) w.3 (handle_keeps t.now t.later t.event s w.0 w.1 w.2 seen)

-- The reply to an accepted charge.
abbrev pub IsAccepted : Reply → Type 0
IsAccepted (charge_reply r status) = r.charged ≡ true
IsAccepted _ = ⊥

refuse_not-IsAccepted :
    (now : ℕ) (req : ChargeReq) (s : Storage) → ¬ (IsAccepted (settled refuse now req s).0)
unfolding settled
refuse_not-IsAccepted now req s h = cc

repeat_not-IsAccepted :
    (now : ℕ) (req : ChargeReq) (s : Storage) → ¬ (IsAccepted (repeat_reply now req s))
unfolding repeat_reply
repeat_not-IsAccepted now req s h = cc

-- An accepted charge puts its key on record.
settled_seen :
    (source : ChargeSource) (now : ℕ) (req : ChargeReq) (s : Storage)
    → IsAccepted (settled source now req s).0
    → first_seen (day_of now) req.path (settled source now req s).1 ≡ some now
settled_seen refuse now req s accepted = absurd (refuse_not-IsAccepted now req s accepted)
settled_seen source now req s accepted =
    first_seen-settled source now req s (day_of now) req.path (λ e. cc)
    ∙ (ground (arith, str_eq_refl req.path))

open_seen :
    (now : ℕ) (req : ChargeReq) (s : Storage)
    → IsAccepted (charge_open now req s).0
    → first_seen (day_of now) req.path (charge_open now req s).1 ≡ some now
unfolding charge_open charge_new
open_seen now req s = elim (Bool-cases (is_repeat now req.path s)) [
  | inl e ↦ rw e (λ accepted. absurd (repeat_not-IsAccepted now req s accepted))
  | inr e ↦ rw e (settled_seen (source_of now req s) now req s)
]

charge_seen :
    (now : ℕ) (req : ChargeReq) (s : Storage)
    → IsAccepted (charge now req s).0
    → first_seen (day_of now) req.path (charge now req s).1 ≡ some now
unfolding charge
charge_seen now req s = elim (Bool-cases (unwrap_or (ensure_init s).banned false)) [
  | inl e ↦ rw e (λ accepted. absurd accepted)
  | inr e ↦ rw e (open_seen now req (ensure_init s))
]

grant_done : (o : Option Bool) (s : Storage) → is_some o ≡ true → grant o s ≡ s
grant_done none s h = cc
grant_done (some b) s h = refl

pub ensure_init_done : (s : Storage) → is_some s.init ≡ true → ensure_init s ≡ s
unfolding ensure_init
ensure_init_done s h = grant_done s.init s h

-- A repeat changes nothing, and is answered as one that is not charged.
charge_repeat :
    (now : ℕ) (req : ChargeReq) (s : Storage)
    → is_some s.init ≡ true
    → is_repeat now req.path s ≡ true
    → ((charge now req s).1 ≡ s) × (¬ (IsAccepted (charge now req s).0))
unfolding charge charge_open
charge_repeat now req s done seen = elim (Bool-cases (unwrap_or s.banned false)) [
  | inl e ↦ rw (ensure_init_done s done, e) (refl, λ h. absurd h)
  | inr e ↦ rw (ensure_init_done s done, e, seen) (refl, repeat_not-IsAccepted now req s)
]

-- After an accepted charge of a key at a time past 0, a further charge of that key less than
-- 86,400 seconds later, with any events of that span in between and all times within u64, is not
-- accepted and changes nothing.
pub repeat_free :
    (first again : ChargeReq) (since now : ℕ) (ts : List Tick) (s : Storage)
    → again.path ≡ first.path
    → 0 < since
    → IsAccepted (charge since first s).0
    → Within since ts
    → since ≤ now
    → now < since + 86400
    → now < u64_mod
    → let s' = run ts (charge since first s).1 in
      ((charge now again s').1 ≡ s') × (¬ (IsAccepted (charge now again s').0))
repeat_free first again since now ts s same started accepted within a b c =
    let s1 = (charge since first s).1 in
    let seen =
      run_keeps since started first.path ts s1 within (charge_seen since first s accepted) in
    let done = (run-Lasts ts s1).init (rw (charge-SameAccount since first s).init (granted s)) in
    charge_repeat now again (run ts s1) done
      (rw same (is_repeat_since since now started a b c first.path (run ts s1) seen))
