-- ===== src/Payments/Lock.antt =====
-- The replay lock of user_worker/src/payments.rs under concurrent requests: the runtime interleaves
-- them at their awaits, so a request is a step that locks its hash and a later one that concludes.
use lets_embed.Prelude.{
  ℕ, ◌≡◌, ◌≢◌, refl, ◌∙◌, ap, Bool, true, false, none, is_some, List, [], ◌∷◌, put, arith,
  Bool-cases, inl, inr,
}
use lets_embed.Prelude.Text.{Str, str_key, str_eq, str_eq_iff}
use lets_embed.Config.Tokens.{TokenSpec}
use lets_embed.Payments.Chain.{Verdict, passed, rejected_for, released_with}
use lets_embed.Payments.Flow.{
  World, Delivery, answered, lost_before, lost_after, Trip, TopupReply, reject, delete_pending,
  credited_account, finalize_row, delivered, checked, conclude, new_row,
}

-- A request that holds the lock of its hash.
pub record Task : Type 0 where
  pub addr : Str
  pub spec : TokenSpec
  pub tx_hash : Str

pub record System : Type 0 where
  pub world : World
  pub tasks : List Task

-- Taking one task out of the list.
pub data Takes (t : Task) : List Task → List Task → Type 0 where
  first : {ts : List Task} → Takes t (t ∷ ts) ts
  after : {s : Task} {ts us : List Task} → Takes t ts us → Takes t (s ∷ ts) (s ∷ us)

abbrev pub locked_world : Trip → Task → World → World
locked_world trip t w = record w {
  payments = put t.tx_hash (new_row t.spec t.addr trip.now) w.payments;
}

abbrev pub concluded : Str → Trip → Task → World → TopupReply × World
concluded deposit trip t w =
    conclude (checked t.spec deposit t.addr trip.node) trip t.addr t.tx_hash w

module _ (deposit : Str) where
  -- A request locks a hash without a row, or a task concludes, whatever it meets outside. A
  -- request that is refused changes nothing.
  pub data Step : System → System → Type 0 where
    begin :
        (trip : Trip) (t : Task) (w : World) (ts : List Task)
        → w.payments t.tx_hash ≡ none
        → Step
            (record { world = w; tasks = ts })
            (record { world = locked_world trip t w; tasks = t ∷ ts })
    finish :
        (trip : Trip) (t : Task) (w : World) (ts us : List Task)
        → Takes t ts us
        → Step
            (record { world = w; tasks = ts })
            (record { world = (concluded deposit trip t w).1; tasks = us })

  pub data Reaches : System → System → Type 0 where
    stay : {a : System} → Reaches a a
    more : {a b c : System} → Step a b → Reaches b c → Reaches a c

-- Every running task holds a lock of its own.
abbrev pub NotRunning : Str → List Task → Type 0
NotRunning h [] = Unit
NotRunning h (t ∷ ts) = (t.tx_hash ≢ h) × NotRunning h ts

abbrev pub HoldsLocks : World → List Task → Type 0
HoldsLocks w [] = Unit
HoldsLocks w (t ∷ ts) =
    (is_some (w.payments t.tx_hash) ≡ true) × NotRunning t.tx_hash ts × HoldsLocks w ts

pub same_hash : (k h : Str) → k ≢ h → str_eq k h ≡ false
same_hash k h ne = elim (Bool-cases (str_eq k h)) [
  | inl e ↦ absurd (ne ((str_eq_iff k h).0 e))
  | inr e ↦ e
]

reject_frame :
    (ok : Bool) (k h : Str) (w : World) → k ≢ h → (reject ok k w).payments h ≡ w.payments h
unfolding reject
reject_frame ok k h w ne = ground (arith, same_hash k h ne)

delete_frame :
    (ok : Bool) (k h : Str) (w : World) → k ≢ h → (delete_pending ok k w).payments h ≡ w.payments h
unfolding delete_pending
delete_frame ok k h w ne = ground (arith, same_hash k h ne)

finalize_frame :
    (ok : Bool) (k h : Str) (amount points : ℕ) (w : World)
    → k ≢ h
    → (finalize_row ok k amount points w).payments h ≡ w.payments h
unfolding finalize_row
finalize_frame ok k h amount points w ne = ground (arith, same_hash k h ne)

credited_frame :
    (addr k h : Str) (points : ℕ) (w : World)
    → (credited_account addr k points w).payments h ≡ w.payments h
unfolding credited_account
credited_frame addr k h points w = refl

delivered_frame :
    (d : Delivery) (trip : Trip) (addr k h : Str) (amount points : ℕ) (w : World)
    → k ≢ h
    → (delivered d trip addr k amount points w).1.payments h ≡ w.payments h
unfolding delivered
delivered_frame answered trip addr k h amount points w ne =
    finalize_frame trip.update_ok k h amount points (credited_account addr k points w) ne
    ∙ credited_frame addr k h points w
delivered_frame lost_before trip addr k h amount points w ne = delete_frame trip.delete_ok k h w ne
delivered_frame lost_after trip addr k h amount points w ne =
    delete_frame trip.delete_ok k h (credited_account addr k points w) ne
    ∙ credited_frame addr k h points w

-- Concluding a payment leaves every other row alone.
pub conclude_frame :
    (v : Verdict (ℕ × ℕ)) (trip : Trip) (addr k h : Str) (w : World)
    → k ≢ h
    → (conclude v trip addr k w).1.payments h ≡ w.payments h
unfolding conclude
conclude_frame (passed (amount, points)) trip addr k h w ne =
    delivered_frame trip.delivery trip addr k h amount points w ne
conclude_frame (rejected_for msg) trip addr k h w ne = reject_frame trip.update_ok k h w ne
conclude_frame (released_with status msg) trip addr k h w ne = delete_frame trip.delete_ok k h w ne

-- A row is there for a hash, and no running task has it: the hash is settled.
abbrev pub IsSettled : Str → System → Type 0
IsSettled h a = (is_some (a.world.payments h) ≡ true) × NotRunning h a.tasks

pub Takes-NotRunning :
    (h : Str) (t : Task) (ts us : List Task) → Takes t ts us → NotRunning h ts → NotRunning h us
Takes-NotRunning h t [] us p n = elim p [ ]
Takes-NotRunning h t (s ∷ ts) us first n = n.1
Takes-NotRunning h t (s ∷ ts) (r ∷ us) (after p) n = (n.0, Takes-NotRunning h t ts us p n.1)

pub taken_ne :
    (h : Str) (t : Task) (ts us : List Task) → Takes t ts us → NotRunning h ts → t.tx_hash ≢ h
taken_ne h t [] us p n = elim p [ ]
taken_ne h t (s ∷ ts) us first n = n.0
taken_ne h t (s ∷ ts) (r ∷ us) (after p) n = taken_ne h t ts us p n.1

pub put_frame :
    (trip : Trip) (t : Task) (h : Str) (w : World)
    → t.tx_hash ≢ h
    → (locked_world trip t w).payments h ≡ w.payments h
put_frame trip t h w ne = ground (arith, same_hash t.tx_hash h ne)

module _ (deposit : Str) where
  Step-IsSettled :
      (h : Str) (a b : System)
      → Step deposit a b
      → IsSettled h a
      → IsSettled h b × (b.world.payments h ≡ a.world.payments h)
  Step-IsSettled h a b (begin trip t w ts free) (there, n) =
      let ne : t.tx_hash ≢ h = λ e. cc (ap w.payments e, free, there) in
      let same = put_frame trip t h w ne in ((rw same there, (ne, n)), same)
  Step-IsSettled h a b (finish trip t w ts us p) (there, n) =
      let same = conclude_frame _ trip t.addr t.tx_hash h w (taken_ne h t ts us p n) in
      ((rw same there, Takes-NotRunning h t ts us p n), same)

  -- A settled hash.
  pub IsSettled-forever :
      (h : Str) (a b : System)
      → Reaches deposit a b
      → IsSettled h a
      → IsSettled h b × (b.world.payments h ≡ a.world.payments h)
  IsSettled-forever h a b stay v = (v, refl)
  IsSettled-forever h a c (more {b = b} p r) v =
      let (v', same) = Step-IsSettled h a b p v in
      let (v'', rest) = IsSettled-forever h b c r v' in (v'', rest ∙ same)
