-- ===== src/Payments/Retry.antt =====
-- What a failed top-up leaves behind (user_worker/src/payments.rs): a release is as if nothing had
-- happened, and a rejection is for good. Lost is on a lost answer of the account object.
pub mod Lost
use lets_embed.Prelude.{
  ℕ, ◌≡◌, refl, sym, ◌∙◌, ap, Bool, true, false, none, is_some, put, arith, Bool-cases, inl, inr,
  [],
}
use lets_embed.Prelude.Text.{Str, codes, str_key, str_eq, str_eq_iff, str_eq_refl}
use lets_embed.Config.Tokens.{TokenSpec}
use lets_embed.Account.Storage.{Storage}
use lets_embed.Account.Wire.{Reply}
use lets_embed.Account.Object.{run}
use lets_embed.Account.Memory.{credit_once}
use lets_embed.Payments.Chain.{rejected_for, released_with}
use lets_embed.Payments.Flow.{
  PaymentRow, pending, World, Trip, api_err, reject, delete_pending, lost_after, answered,
  delivered, finalize_row, credit_req, credited_account, conclude, checked, submit, new_row,
}

-- Two worlds that hold the same rows and accounts.
pub record SameWorld (w w' : World) : Type 0 where
  pub payments : (h : Str) → w'.payments h ≡ w.payments h
  pub accounts : (addr : Str) → w'.accounts addr ≡ w.accounts addr

restored :
    (h k : Str) (w : World) (row : PaymentRow)
    → row.status ≡ pending
    → w.payments h ≡ none
    → (delete_pending true h (record w { payments = put h row w.payments })).payments k
      ≡ w.payments k
unfolding delete_pending
restored h k w row p free = elim (Bool-cases (str_eq h k)) [
  | inl e ↦ ground (arith, str_eq_refl h, ap w.payments ((str_eq_iff h k).0 e))
  | inr e ↦ ground (arith, str_eq_refl h)
]

-- The insert and the verdict of a submission that finds no row.
pub submit_free :
    (deposit : Str) (trip : Trip) (addr : Str) (spec : TokenSpec) (h : Str) (w : World)
    → trip.insert_ok ≡ true
    → w.payments h ≡ none
    → submit deposit trip addr spec h w
      ≡ conclude
          (checked spec deposit addr trip.node)
          trip
          addr
          h
          (record w { payments = put h (new_row spec addr trip.now) w.payments })
unfolding submit
submit_free deposit trip addr spec h w up free = rw (up, free)

delete-SameWorld :
    (ok : Bool) (h : Str) (row : PaymentRow) (w : World)
    → ok ≡ true
    → row.status ≡ pending
    → w.payments h ≡ none
    → SameWorld w (delete_pending ok h (record w { payments = put h row w.payments }))
delete-SameWorld true h row w up p free = record {
  payments = λ k. restored h k w row p free;
  accounts = λ a. (unfold delete_pending in refl);
}
delete-SameWorld false h row w up p free = cc

-- A top-up that finds no row and whose checks end in a release is answered with the status and
-- message of the release and, if the database carries out its statements, leaves every row and
-- account as it was.
pub released_restores :
    (deposit : Str) (trip : Trip) (addr : Str) (spec : TokenSpec) (h : Str) (w : World) {status : ℕ}
    {msg : Str}
    → trip.insert_ok ≡ true
    → trip.delete_ok ≡ true
    → w.payments h ≡ none
    → checked spec deposit addr trip.node ≡ released_with status msg
    → ((submit deposit trip addr spec h w).0 ≡ api_err status msg)
      × SameWorld w (submit deposit trip addr spec h w).1
unfolding conclude
released_restores deposit trip addr spec h w up del free verdict =
    rw (submit_free deposit trip addr spec h w up free, verdict)
      (refl, delete-SameWorld trip.delete_ok h (new_row spec addr trip.now) w del refl free)

reject_there :
    (ok : Bool) (h : Str) (row : PaymentRow) (w : World)
    → is_some ((reject ok h (record w { payments = put h row w.payments })).payments h) ≡ true
unfolding reject
reject_there ok h row w = ground (arith, str_eq_refl h)

reject_unpaid :
    (ok : Bool) (h addr : Str) (row : PaymentRow) (w : World)
    → (reject ok h (record w { payments = put h row w.payments })).accounts addr ≡ w.accounts addr
unfolding reject
reject_unpaid ok h addr row w = ground arith

refused_there :
    (deposit : Str) (trip : Trip) (addr : Str) (spec : TokenSpec) (h : Str) (w : World)
    → trip.insert_ok ≡ true
    → is_some (w.payments h) ≡ true
    → submit deposit trip addr spec h w ≡ (api_err 409 (codes "tx already submitted"), w)
unfolding submit
refused_there deposit trip addr spec h w up there = ground arith

-- A top-up that finds no row, whose insert is carried out and whose checks end in a rejection is
-- answered 400 and changes no account, and any next submission of the hash whose insert reaches
-- the database is answered 409 and changes nothing.
pub rejected_for_good :
    (deposit : Str) (trip again : Trip) (addr : Str) (spec : TokenSpec) (h : Str) (w : World)
    {msg : Str}
    → trip.insert_ok ≡ true
    → again.insert_ok ≡ true
    → w.payments h ≡ none
    → checked spec deposit addr trip.node ≡ rejected_for msg
    → let (reply, w') = submit deposit trip addr spec h w in
      (reply ≡ api_err 400 msg)
      × ((a : Str) → w'.accounts a ≡ w.accounts a)
      × ((other : Str) (s : TokenSpec)
          → submit deposit again other s h w' ≡ (api_err 409 (codes "tx already submitted"), w'))
unfolding conclude
rejected_for_good deposit trip again addr spec h w up up' free verdict =
    rw (submit_free deposit trip addr spec h w up free, verdict)
      (
        refl,
        (λ a. reject_unpaid trip.update_ok h a (new_row spec addr trip.now) w),
        λ other s.
            refused_there deposit again other s h _ up'
              (reject_there trip.update_ok h (new_row spec addr trip.now) w),
      )
