-- ===== src/Account/Memory.antt =====
-- What the object of user_worker/src/account_do.rs remembers over its life: the charged keys of the
-- last day, the applied credits and the free grant.
pub mod Repeats
use lets_embed.Prelude.{
  ℕ, ◌≡◌, refl, ap, true, arith, is_some, List, [], ◌∷◌, Option-cases, inl, inr, none, some, false,
}
use lets_embed.Prelude.Text.{Str, str_eq_refl}
use lets_embed.Account.Wire.{SubscribeReq, ChargeReq, CreditReq, balance_reply}
use lets_embed.Account.Storage.{Storage, balance_of}
use lets_embed.Account.Status.{ensure_init}
use lets_embed.Account.Charge.{charge}
use lets_embed.Account.Charge.Frame.{charge-SameAccount}
use lets_embed.Account.Credit.{credit}
use lets_embed.Account.Plans.{subscribe_to, subscribe, with_plan, unsubscribe, alarm, closed}
use lets_embed.Account.Solvent.Credit.{credit-OnlyCredit, credit_replay}
use lets_embed.Account.Object.{
  Event, on_init, on_charge, on_credit, on_status, on_subscribe, on_unsubscribe, on_ban, on_alarm,
  handle, init, ban, Tick, step, run,
}

-- Memory that the plan handlers leave alone.
pub record SameMemory (s s' : Storage) : Type 0 where
  pub init : s'.init ≡ s.init
  pub seen : s'.seen ≡ s.seen
  pub credit : s'.credit ≡ s.credit

pub subscribe-SameMemory :
    (now later : ℕ) (req : SubscribeReq) (s : Storage) → SameMemory s (subscribe now later req s).1
unfolding subscribe subscribe_to with_plan
subscribe-SameMemory now later req s = record {
  init = ground arith;
  seen = ground arith;
  credit = ground arith;
}

pub unsubscribe-SameMemory :
    (now later : ℕ) (s : Storage) → SameMemory s (unsubscribe now later s).1
unfolding unsubscribe
unsubscribe-SameMemory now later s = record {
  init = ground arith;
  seen = ground arith;
  credit = ground arith;
}

pub alarm-SameMemory : (now : ℕ) (s : Storage) → SameMemory s (alarm now s).1
unfolding alarm
alarm-SameMemory now s = record { init = ground arith; seen = ground arith; credit = ground arith }

-- The grant is given once: no event takes the mark of it away.
pub granted : (s : Storage) → is_some (ensure_init s).init ≡ true
unfolding ensure_init
granted s = ground arith

credit_marks :
    (req : CreditReq) (s : Storage) (key : Str)
    → is_some (s.credit key) ≡ true
    → is_some ((credit req s).1.credit key) ≡ true
unfolding credit
credit_marks req s key h = ground arith

-- What lasts from any event on: the mark of the grant and the markers of the applied credits.
pub record Lasts (s s' : Storage) : Type 0 where
  pub init : is_some s.init ≡ true → is_some s'.init ≡ true
  pub credit : (key : Str) → is_some (s.credit key) ≡ true → is_some (s'.credit key) ≡ true

same-Lasts : (s s' : Storage) → SameMemory s s' → Lasts s s'
same-Lasts s s' m = record { init = λ h. rw m.init h; credit = λ key h. rw m.credit h }

ensure_init-Lasts : (s : Storage) → Lasts s (ensure_init s)
unfolding ensure_init
ensure_init-Lasts s = record { init = ground arith; credit = λ key h. ground arith }

pub handle-Lasts : (now later : ℕ) (e : Event) (s : Storage) → Lasts s (handle now later e s).1
unfolding handle init ban
handle-Lasts now later (on_init req) s = record {
  init = (ensure_init-Lasts s).init;
  credit = (ensure_init-Lasts s).credit;
}
handle-Lasts now later (on_charge req) s =
    let same = charge-SameAccount now req s in
    record {
      init = λ h. rw same.init ((ensure_init-Lasts s).init h);
      credit = λ key h. rw same.credit ((ensure_init-Lasts s).credit key h);
    }
handle-Lasts now later (on_credit req) s = record {
  init = λ h. rw (credit-OnlyCredit req s).init h;
  credit = λ key h. credit_marks req s key h;
}
handle-Lasts now later on_status s = record { init = λ h. h; credit = λ key h. h }
handle-Lasts now later (on_subscribe req) s =
    same-Lasts s (subscribe now later req s).1 (subscribe-SameMemory now later req s)
handle-Lasts now later on_unsubscribe s =
    same-Lasts s (unsubscribe now later s).1 (unsubscribe-SameMemory now later s)
handle-Lasts now later (on_ban req) s = record { init = λ h. h; credit = λ key h. h }
handle-Lasts now later on_alarm s = same-Lasts s (alarm now s).1 (alarm-SameMemory now s)

pub run-Lasts : (ts : List Tick) (s : Storage) → Lasts s (run ts s)
unfolding run
run-Lasts [] s = record { init = λ h. h; credit = λ key h. h }
run-Lasts (t ∷ ts) s =
    let first = handle-Lasts t.now t.later t.event s in
    let rest = run-Lasts ts (step t s) in
    record {
      init = λ h. rest.init (first.init h);
      credit = λ key h. rest.credit key (first.credit key h);
    }

pub marked_by : (req : CreditReq) (s : Storage) → is_some ((credit req s).1.credit req.key) ≡ true
unfolding credit
marked_by req s = ground (arith, str_eq_refl req.key)

-- After a credit under a key, with any events in between, a credit under the same key answers that
-- it is not applied and changes nothing.
pub credit_once :
    (first replay : CreditReq) (ts : List Tick) (s : Storage)
    → replay.key ≡ first.key
    → let s' = run ts (credit first s).1 in
      credit replay s'
      ≡ (balance_reply (record { balance = balance_of s'; applied = false }) 200, s')
credit_once first replay ts s same =
    let s' = run ts (credit first s).1 in
    let lasts = (run-Lasts ts (credit first s).1).credit first.key (marked_by first s) in
    elim (Option-cases (s'.credit replay.key)) [
      | inl fresh ↦ cc (lasts, ap (λ (k : Str). s'.credit k) same)
      | inr (b, marked) ↦ credit_replay replay s' marked
    ]
