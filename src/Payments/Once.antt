-- ===== src/Payments/Once.antt =====
-- A transaction is answered as credited once, in every interleaving of requests
-- (user_worker/src/payments.rs).
use lets_embed.Prelude.{
  ℕ, ◌≡◌, ◌≢◌, sym, ap, Bool, true, not, none, is_some, List, [], ◌∷◌, arith, if◌then◌else◌,
}
use lets_embed.Prelude.Int.{ℤ}
use lets_embed.Prelude.Text.{Str, codes, str_key, str_eq_refl}
use lets_embed.Config.Tokens.{TokenSpec}
use lets_embed.Payments.Chain.{Verdict, passed, rejected_for, released_with}
use lets_embed.Payments.Flow.{
  World, Delivery, answered, lost_before, lost_after, Trip, TopupReply, topup_resp, api_err,
  credited_account, finalize_row, delivered, conclude, submit,
}
use lets_embed.Payments.Lock.{
  Task, System, Takes, first, after, locked_world, concluded, Step, begin, finish, Reaches, stay,
  more, NotRunning, HoldsLocks, Takes-NotRunning, taken_ne, put_frame, conclude_frame,
  IsSettled-forever,
}

-- A change of one row, of which no task runs.
holds_frame :
    (k : Str) (w w' : World) (ts : List Task)
    → ((h : Str) → k ≢ h → w'.payments h ≡ w.payments h)
    → NotRunning k ts
    → HoldsLocks w ts
    → HoldsLocks w' ts
holds_frame k w w' [] same n v = tt
holds_frame k w w' (t ∷ ts) same n v =
    (rw (same t.tx_hash (λ e. n.0 (sym e))) v.0, v.1, holds_frame k w w' ts same n.1 v.2)

free_NotRunning :
    (h : Str) (w : World) (ts : List Task) → w.payments h ≡ none → HoldsLocks w ts → NotRunning h ts
free_NotRunning h w [] free v = tt
free_NotRunning h w (t ∷ ts) free v =
    ((λ e. cc (ap w.payments e, free, v.0)), free_NotRunning h w ts free v.2)

taken_HoldsLocks :
    (w : World) (t : Task) (ts us : List Task)
    → Takes t ts us
    → HoldsLocks w ts
    → (is_some (w.payments t.tx_hash) ≡ true) × NotRunning t.tx_hash us × HoldsLocks w us
taken_HoldsLocks w t [] us p v = elim p [ ]
taken_HoldsLocks w t (s ∷ ts) us first v = v
taken_HoldsLocks w t (s ∷ ts) (r ∷ us) (after p) v =
    let (there, n, rest) = taken_HoldsLocks w t ts us p v.2 in
    let ne : t.tx_hash ≢ s.tx_hash = taken_ne s.tx_hash t ts us p v.1 in
    (there, ((λ e. ne (sym e)), n), (v.0, Takes-NotRunning s.tx_hash t ts us p v.1, rest))

put_there :
    (trip : Trip) (t : Task) (w : World)
    → is_some ((locked_world trip t w).payments t.tx_hash) ≡ true
put_there trip t w = ground (arith, str_eq_refl t.tx_hash)

finalized_there :
    (ok : Bool) (h : Str) (amount points : ℕ) (w : World)
    → is_some (w.payments h) ≡ true
    → is_some ((finalize_row ok h amount points w).payments h) ≡ true
unfolding finalize_row
finalized_there ok h amount points w there = ground (arith, str_eq_refl h)

credited_there :
    (addr h : Str) (points : ℕ) (w : World)
    → is_some (w.payments h) ≡ true
    → is_some ((credited_account addr h points w).payments h) ≡ true
unfolding credited_account
credited_there addr h points w there = there

-- A payment that is answered as credited keeps its row.
delivered_there :
    (d : Delivery) (trip : Trip) (addr h : Str) (amount points : ℕ) (w : World) {n : ℕ} {b : ℤ}
    → (delivered d trip addr h amount points w).0 ≡ topup_resp n b
    → is_some (w.payments h) ≡ true
    → is_some ((delivered d trip addr h amount points w).1.payments h) ≡ true
unfolding delivered
delivered_there answered trip addr h amount points w e there =
    finalized_there trip.update_ok h amount points (credited_account addr h points w)
      (credited_there addr h points w there)
delivered_there lost_before trip addr h amount points w e there = cc
delivered_there lost_after trip addr h amount points w e there = cc

conclude_there :
    (v : Verdict (ℕ × ℕ)) (trip : Trip) (addr h : Str) (w : World) {n : ℕ} {b : ℤ}
    → (conclude v trip addr h w).0 ≡ topup_resp n b
    → is_some (w.payments h) ≡ true
    → is_some ((conclude v trip addr h w).1.payments h) ≡ true
unfolding conclude
conclude_there (passed (amount, points)) trip addr h w e there =
    delivered_there trip.delivery trip addr h amount points w e there
conclude_there (rejected_for msg) trip addr h w e there = cc
conclude_there (released_with status msg) trip addr h w e there = cc

-- The answer to a hash that is there: already submitted, unless the insert fails otherwise.
abbrev pub refusal : Trip → TopupReply
refusal trip =
    if not trip.insert_ok
    then api_err 500 (codes "database error, retry later")
    else api_err 409 (codes "tx already submitted")

module _ (deposit : Str) where
  -- A hash with a row is refused.
  refused :
      (trip : Trip) (addr : Str) (spec : TokenSpec) (h : Str) (w : World)
      → is_some (w.payments h) ≡ true
      → submit deposit trip addr spec h w ≡ (refusal trip, w)
  unfolding submit
  refused trip addr spec h w there = ground arith

  -- Every task holds a lock of its own, whatever steps are taken.
  Step-HoldsLocks :
      (a b : System) → Step deposit a b → HoldsLocks a.world a.tasks → HoldsLocks b.world b.tasks
  Step-HoldsLocks a b (begin trip t w ts free) v =
      let n = free_NotRunning t.tx_hash w ts free v in
      (
        put_there trip t w,
        n,
        holds_frame t.tx_hash w (locked_world trip t w) ts (λ h ne. put_frame trip t h w ne) n v,
      )
  Step-HoldsLocks a b (finish trip t w ts us p) v =
      let (there, n, rest) = taken_HoldsLocks w t ts us p v in
      holds_frame t.tx_hash w (concluded deposit trip t w).1 us
        (λ h ne. conclude_frame _ trip t.addr t.tx_hash h w ne) n rest

  pub Reaches-HoldsLocks :
      (a b : System) → Reaches deposit a b → HoldsLocks a.world a.tasks → HoldsLocks b.world b.tasks
  Reaches-HoldsLocks a b stay v = v
  Reaches-HoldsLocks a c (more {b = b} p r) v = Reaches-HoldsLocks b c r (Step-HoldsLocks a b p v)

  -- In every interleaving of requests from a state in which each running request holds a lock of
  -- its own, after a top-up of a hash is answered as credited, no request for that hash is ever
  -- running again, and every further submission of it, by anyone, is refused and changes nothing.
  pub credited_once :
      (trip later : Trip) (t : Task) (w : World) (ts us : List Task) (start c : System) {n : ℕ}
      {b : ℤ}
      → HoldsLocks start.world start.tasks
      → Reaches deposit start (record { world = w; tasks = ts })
      → Takes t ts us
      → (concluded deposit trip t w).0 ≡ topup_resp n b
      → Reaches deposit (record { world = (concluded deposit trip t w).1; tasks = us }) c
      → NotRunning t.tx_hash c.tasks
        × ((addr : Str) (spec : TokenSpec)
            → submit deposit later addr spec t.tx_hash c.world ≡ (refusal later, c.world))
  credited_once trip later t w ts us start c v r p paid q =
      let locks = Reaches-HoldsLocks start (record { world = w; tasks = ts }) r v in
      let (there, n, rest) = taken_HoldsLocks w t ts us p locks in
      let settled = conclude_there _ trip t.addr t.tx_hash w paid there in
      let (end, _) =
        IsSettled-forever deposit t.tx_hash
          (record { world = (concluded deposit trip t w).1; tasks = us }) c q (settled, n) in
      (end.1, λ addr spec. refused later addr spec t.tx_hash c.world end.0)
