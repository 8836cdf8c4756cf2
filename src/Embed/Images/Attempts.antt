-- ===== src/Embed/Images/Attempts.antt =====
-- How often an image is claimed.
pub mod Life
use lets_embed.Prelude.{
  ℕ, zero, suc, ◌+◌, ◌≤◌, ◌≡◌, refl, sym, ap, ◌∙◌, Bool, true, false, ◌&&◌, ◌||◌, List, [], ◌∷◌,
  ◌++◌, take, any, find, Option, none, some, length, leb, ◌==◌, ==_iff, arith, Bool-cases,
  Option-cases, inl, inr, if◌then◌else◌,
}
use lets_embed.Embed.Images.{
  Status, pending, processing, completed, Row, Table, is_pending, is_stranded, ids_where, next_jobs,
  is_in, update_claimed, set_status, claim_batch, write_batch, Event, on_claim, on_write, step, run,
  handed, claims_of,
}

-- The attempts of the row with an id, and 0 without such a row.
abbrev pub attempt_of : ℕ → Table → ℕ
attempt_of i [] = 0
attempt_of i (r ∷ rows) = let rest = attempt_of i rows in if r.id == i then r.attempt else rest

-- Each id has one row: it is the primary key.
abbrev pub has_row : ℕ → Table → Bool
has_row i rows = any (λ (r : Row). r.id == i) rows

abbrev pub IsKeyed : Table → Type 0
IsKeyed [] = Unit
IsKeyed (r ∷ rows) = (has_row r.id rows ≡ false) × IsKeyed rows

is_in-take : (i n : ℕ) (ids : List ℕ) → is_in i (take n ids) ≡ true → is_in i ids ≡ true
is_in-take i zero ids h = absurd (ground arith)
is_in-take i (suc n) [] h = h
is_in-take i (suc n) (j ∷ ids) h = ground (arith, h, is_in-take i n ids)

is_in-append : (i : ℕ) (l m : List ℕ) → is_in i (l ++ m) ≡ true → (is_in i l || is_in i m) ≡ true
is_in-append i [] m h = h
is_in-append i (j ∷ l) m h = ground (arith, h, is_in-append i l m)

-- What is selected has a row, and by a condition on the attempts, one with few of them.
ids_where-row :
    (p : Row → Bool) (i : ℕ) (rows : Table)
    → is_in i (ids_where p rows) ≡ true
    → has_row i rows ≡ true
unfolding ids_where
ids_where-row p i [] h = absurd (ground arith)
ids_where-row p i (r ∷ rows) h = ground (arith, h, ids_where-row p i rows)

ids_where-attempt :
    (p : Row → Bool) (i : ℕ) (rows : Table)
    → ((r : Row) → p r ≡ true → r.attempt ≤ 5)
    → IsKeyed rows
    → is_in i (ids_where p rows) ≡ true
    → attempt_of i rows ≤ 5
unfolding ids_where
ids_where-attempt p i [] few keyed h = absurd (ground arith)
ids_where-attempt p i (r ∷ rows) few keyed h = elim (Bool-cases (p r)) [
  | inl e ↦ ground (arith, h, e, few r e, ids_where-attempt p i rows few keyed.1)
  | inr e ↦
      ground (arith, h, e, keyed.0, ids_where-row p i rows, ids_where-attempt p i rows few keyed.1)
]

pending_few : (r : Row) → is_pending r ≡ true → r.attempt ≤ 5
pending_few r h = ground (arith, h)

stranded_few :
    (now reclaim_after : ℕ) (r : Row) → is_stranded now reclaim_after r ≡ true → r.attempt ≤ 5
stranded_few now reclaim_after r h = ground (arith, h)

-- An image is handed out only with five attempts at most.
pub next_jobs-attempt :
    (now reclaim_after n i : ℕ) (rows : Table)
    → IsKeyed rows
    → is_in i (next_jobs now reclaim_after n rows) ≡ true
    → attempt_of i rows ≤ 5
unfolding next_jobs
next_jobs-attempt now reclaim_after n i rows keyed h =
    let first = take n (ids_where is_pending rows) in
    let second = take n (ids_where (is_stranded now reclaim_after) rows) in
    let either = is_in-append i first second (is_in-take i n (first ++ second) h) in
    elim (Bool-cases (is_in i first)) [
      | inl e ↦
          ids_where-attempt is_pending i rows pending_few keyed
            (is_in-take i n (ids_where is_pending rows) e)
      | inr e ↦
          ids_where-attempt (is_stranded now reclaim_after) i rows (stranded_few now reclaim_after)
            keyed
            (is_in-take i n (ids_where (is_stranded now reclaim_after) rows)
              (ground (arith, e, either)))
    ]

-- The updates keep the rows.
pub update_claimed-row :
    (now i : ℕ) (ids : List ℕ) (rows : Table)
    → has_row i (update_claimed now ids rows) ≡ has_row i rows
unfolding update_claimed
update_claimed-row now i ids [] = refl
update_claimed-row now i ids (r ∷ rows) = ground (arith, update_claimed-row now i ids rows)

pub update_claimed-IsKeyed :
    (now : ℕ) (ids : List ℕ) (rows : Table) → IsKeyed rows → IsKeyed (update_claimed now ids rows)
unfolding update_claimed
update_claimed-IsKeyed now ids [] h = tt
update_claimed-IsKeyed now ids (r ∷ rows) h = elim (Bool-cases (is_in r.id ids)) [
  | inl e ↦
      rw e (update_claimed-row now r.id ids rows ∙ h.0, update_claimed-IsKeyed now ids rows h.1)
  | inr e ↦
      rw e (update_claimed-row now r.id ids rows ∙ h.0, update_claimed-IsKeyed now ids rows h.1)
]

pub set_status-row :
    (status : Status) (i : ℕ) (ids : List ℕ) (rows : Table)
    → has_row i (set_status status ids rows) ≡ has_row i rows
unfolding set_status
set_status-row status i ids [] = refl
set_status-row status i ids (r ∷ rows) = ground (arith, set_status-row status i ids rows)

pub set_status-IsKeyed :
    (status : Status) (ids : List ℕ) (rows : Table)
    → IsKeyed rows
    → IsKeyed (set_status status ids rows)
unfolding set_status
set_status-IsKeyed status ids [] h = tt
set_status-IsKeyed status ids (r ∷ rows) h = elim (Bool-cases (is_in r.id ids)) [
  | inl e ↦ rw e (set_status-row status r.id ids rows ∙ h.0, set_status-IsKeyed status ids rows h.1)
  | inr e ↦ rw e (set_status-row status r.id ids rows ∙ h.0, set_status-IsKeyed status ids rows h.1)
]

-- A claim counts each image that it hands out, and a write counts none.
pub update_claimed-attempt :
    (now i : ℕ) (ids : List ℕ) (rows : Table)
    → has_row i rows ≡ true
    → attempt_of i (update_claimed now ids rows)
      ≡ (if is_in i ids then 1 else 0) + attempt_of i rows
unfolding update_claimed
update_claimed-attempt now i ids [] h = absurd (ground arith)
update_claimed-attempt now i ids (r ∷ rows) h = elim (Bool-cases (r.id == i)) [
  | inl e ↦ let same : r.id ≡ i = (==_iff r.id i).0 e in ground (arith, e, same)
  | inr e ↦ ground (arith, e, h, update_claimed-attempt now i ids rows)
]

pub set_status-attempt :
    (status : Status) (i : ℕ) (ids : List ℕ) (rows : Table)
    → attempt_of i (set_status status ids rows) ≡ attempt_of i rows
unfolding set_status
set_status-attempt status i ids [] = refl
set_status-attempt status i ids (r ∷ rows) = ground (arith, set_status-attempt status i ids rows)
