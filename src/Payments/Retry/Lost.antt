-- ===== src/Payments/Retry/Lost.antt =====
-- A top-up of user_worker/src/payments.rs whose credit is applied but whose answer is lost, and the
-- requests for the same hash that follow.
use lets_embed.Prelude.{
  ℕ, ◌≡◌, refl, sym, ◌∙◌, ap, Bool, true, false, not, none, some, is_some, put, arith, Bool-cases,
  Option-cases, inl, inr, List, if◌then◌else◌,
}
use lets_embed.Prelude.Text.{Str, codes, str_key, str_eq, str_eq_iff, str_eq_refl}
use lets_embed.Config.Tokens.{TokenSpec}
use lets_embed.Prelude.Int.{pos, ◌+ℤ◌}
use lets_embed.Prelude.Words.{InI64}
use lets_embed.Account.Storage.{Storage, balance_of}
use lets_embed.Account.Credit.Exact.{with_points, credit-eq-with_points}
use lets_embed.Account.Credit.{credit}
use lets_embed.Account.Memory.{marked_by, run-Lasts}
use lets_embed.Account.Object.{Tick, run}
use lets_embed.Account.Solvent.Credit.{credit_replay}
use lets_embed.Payments.Chain.{Verdict, passed, rejected_for, released_with}
use lets_embed.Payments.Flow.{
  PaymentRow, pending, World, Trip, Delivery, api_err, reject, delete_pending, lost_before,
  lost_after, answered, delivered, finalize_row, credit_req, credited_account, conclude, checked,
  submit, new_row,
}
use lets_embed.Payments.Retry.{submit_free}

deleted_accounts : (ok : Bool) (h : Str) (w : World) → (delete_pending ok h w).accounts ≡ w.accounts
unfolding delete_pending
deleted_accounts ok h w = ground arith

rejected_accounts : (ok : Bool) (h : Str) (w : World) → (reject ok h w).accounts ≡ w.accounts
unfolding reject
rejected_accounts ok h w = ground arith

finalized_accounts :
    (ok : Bool) (h : Str) (amount points : ℕ) (w : World)
    → (finalize_row ok h amount points w).accounts ≡ w.accounts
unfolding finalize_row
finalized_accounts ok h amount points w = ground arith

-- The account object remembers the hash.
IsMarked : Str → Str → World → Type 0
IsMarked addr h w = is_some ((w.accounts addr).credit (credit_req h 0).key) ≡ true

-- A credit of a hash that is remembered changes no account.
credited_same :
    (addr h : Str) (points : ℕ) (w : World) (a : Str)
    → IsMarked addr h w
    → (credited_account addr h points w).accounts a ≡ w.accounts a
unfolding credited_account IsMarked
credited_same addr h points w a marked = elim (Bool-cases (str_eq a addr)) [
  | inr e ↦ rw e refl
  | inl e ↦ elim (Option-cases ((w.accounts addr).credit (credit_req h 0).key)) [
    | inl fresh ↦ absurd (ground (arith, marked, fresh))
    | inr (b, there) ↦ rw e (
        ap (λ p. p.1) (credit_replay (credit_req h points) (w.accounts addr) there)
        ∙ ap w.accounts (sym ((str_eq_iff a addr).0 e)))
  ]
]

delivered_same :
    (d : Delivery) (trip : Trip) (addr h : Str) (amount points : ℕ) (w : World) (a : Str)
    → IsMarked addr h w
    → (delivered d trip addr h amount points w).1.accounts a ≡ w.accounts a
unfolding delivered
delivered_same answered trip addr h amount points w a marked =
    ap (λ f. f a) (finalized_accounts trip.update_ok h amount points _)
    ∙ credited_same addr h points w a marked
delivered_same lost_before trip addr h amount points w a marked =
    ap (λ f. f a) (deleted_accounts trip.delete_ok h w)
delivered_same lost_after trip addr h amount points w a marked =
    ap (λ f. f a) (deleted_accounts trip.delete_ok h _) ∙ credited_same addr h points w a marked

conclude_same :
    (v : Verdict (ℕ × ℕ)) (trip : Trip) (addr h : Str) (w : World) (a : Str)
    → IsMarked addr h w
    → (conclude v trip addr h w).1.accounts a ≡ w.accounts a
unfolding conclude
conclude_same (passed (amount, points)) trip addr h w a marked =
    delivered_same trip.delivery trip addr h amount points w a marked
conclude_same (rejected_for msg) trip addr h w a marked =
    ap (λ f. f a) (rejected_accounts trip.update_ok h w)
conclude_same (released_with status msg) trip addr h w a marked =
    ap (λ f. f a) (deleted_accounts trip.delete_ok h w)

-- The two tests of a submission, and what follows them.
tested_same :
    (insert_ok there : Bool) (v : Verdict (ℕ × ℕ)) (trip : Trip) (addr h : Str) (row : PaymentRow)
    (w : World) (a : Str)
    → IsMarked addr h w
    → let out =
        if not insert_ok
        then (api_err 500 (codes "database error, retry later"), w)
        else if there
        then (api_err 409 (codes "tx already submitted"), w)
        else conclude v trip addr h (record w { payments = put h row w.payments }) in
      out.1.accounts a ≡ w.accounts a
unfolding IsMarked
tested_same false there v trip addr h row w a marked = refl
tested_same true true v trip addr h row w a marked = refl
tested_same true false v trip addr h row w a marked =
    conclude_same v trip addr h (record w { payments = put h row w.payments }) a marked

-- A submission of a hash that is remembered changes no account, whatever it meets.
submit_same :
    (deposit : Str) (trip : Trip) (addr : Str) (spec : TokenSpec) (h : Str) (w : World) (a : Str)
    → IsMarked addr h w
    → (submit deposit trip addr spec h w).1.accounts a ≡ w.accounts a
unfolding submit
submit_same deposit trip addr spec h w a marked =
    tested_same trip.insert_ok (is_some (w.payments h)) (checked spec deposit addr trip.node) trip
      addr h (new_row spec addr trip.now) w a marked

-- The row that a failed call leaves: none, if the database deletes it.
deleted_row :
    (ok : Bool) (h : Str) (row : PaymentRow) (w : World)
    → row.status ≡ pending
    → (delete_pending ok h (record w { payments = put h row w.payments })).payments h
      ≡ (if ok then none else some row)
unfolding delete_pending
deleted_row true h row w p = ground (arith, str_eq_refl h)
deleted_row false h row w p = ground (arith, str_eq_refl h)

module _ (deposit : Str) (trip : Trip) (addr h : Str) (spec : TokenSpec) (w : World)
    {amount points : ℕ} (inserted : trip.insert_ok ≡ true) (lost : trip.delivery ≡ lost_after)
    (free : w.payments h ≡ none)
    (verdict : checked spec deposit addr trip.node ≡ passed (amount, points)) where
  abbrev inserted_world : World
  inserted_world = record w { payments = put h (new_row spec addr trip.now) w.payments }

  -- The first request, whose answer is lost.
  submit_lost : submit deposit trip addr spec h w ≡ (
    api_err 500 (codes "credit failed, retry later"),
    delete_pending trip.delete_ok h (credited_account addr h points inserted_world),
  )
  unfolding conclude delivered
  submit_lost =
      submit_free deposit trip addr spec h w inserted free
      ∙ ap (λ v. conclude v trip addr h inserted_world) verdict
      ∙ ap (λ d. delivered d trip addr h amount points inserted_world) lost

  lost_account :
      (submit deposit trip addr spec h w).1.accounts addr
      ≡ (credit (credit_req h points) (w.accounts addr)).1
  unfolding credited_account
  lost_account =
      ap (λ x. x.1.accounts addr) submit_lost
      ∙ ap (λ f. f addr)
          (deleted_accounts trip.delete_ok h (credited_account addr h points inserted_world))
      ∙ rw (str_eq_refl addr) refl

  lost_row :
      (submit deposit trip addr spec h w).1.payments h
      ≡ (if trip.delete_ok then none else some (new_row spec addr trip.now))
  unfolding credited_account
  lost_row =
      ap (λ x. x.1.payments h) submit_lost
      ∙ deleted_row trip.delete_ok h (new_row spec addr trip.now)
          (record w { accounts = (credited_account addr h points inserted_world).accounts }) refl

  run-IsMarked :
      (w' : World) (ts : List Tick)
      → w'.accounts addr ≡ run ts ((submit deposit trip addr spec h w).1.accounts addr)
      → IsMarked addr h w'
  unfolding IsMarked
  run-IsMarked w' ts later =
      let s = (credit (credit_req h points) (w.accounts addr)).1 in
      let is_marked : Storage → Bool = λ s. is_some (s.credit (credit_req h points).key) in
      ap is_marked (later ∙ ap (run ts) lost_account)
      ∙ (run-Lasts ts s).credit (credit_req h points).key
          (marked_by (credit_req h points) (w.accounts addr))

  -- If a top-up finds no row, its insert is carried out, its checks pass with a number of points
  -- and the account object applies the credit but its answer is lost, the request is answered 500,
  -- its row is deleted if the database carries that out and else stays pending, and if the key was
  -- not marked and the balance with the points fits into i64, the points are added once; after any
  -- events of that account, and whatever else has become of the rows and the other accounts, a
  -- further top-up of the hash for the same address changes no account, whatever it meets.
  pub lost_answer_paid_once :
      (w' : World) (ts : List Tick)
      → w'.accounts addr ≡ run ts ((submit deposit trip addr spec h w).1.accounts addr)
      → (again : Trip) (other : TokenSpec)
      → (w.accounts addr).credit (credit_req h points).key ≡ none
      → InI64 (balance_of (w.accounts addr) +ℤ pos points)
      → let (reply, w1) = submit deposit trip addr spec h w in
        (reply ≡ api_err 500 (codes "credit failed, retry later"))
        × (w1.accounts addr ≡ with_points (credit_req h points) (w.accounts addr))
        × (w1.payments h ≡ (if trip.delete_ok then none else some (new_row spec addr trip.now)))
        × ((a : Str) → (submit deposit again addr other h w').1.accounts a ≡ w'.accounts a)
  lost_answer_paid_once w' ts later again other fresh fits = (
    ap (λ x. x.0) submit_lost,
    lost_account ∙ credit-eq-with_points (credit_req h points) (w.accounts addr) fresh fits,
    lost_row,
    λ a. submit_same deposit again addr other h w' a (run-IsMarked w' ts later),
  )
