-- ===== src/Embed/Images/Attempts/Life.antt =====
-- How often an image is claimed over any sequence of claims and writes.
use lets_embed.Prelude.{
  ℕ, ◌+◌, ◌≤◌, ◌≡◌, refl, ◌∙◌, true, false, List, [], ◌∷◌, arith, Bool-cases, inl, inr,
}
use lets_embed.Embed.Images.{
  Table, pending, completed, next_jobs, is_in, set_status, claim_batch, write_batch, Event,
  on_claim, on_write, step, run, handed, claims_of,
}
use lets_embed.Embed.Images.Attempts.{
  attempt_of, has_row, IsKeyed, next_jobs-attempt, update_claimed-row, update_claimed-IsKeyed,
  set_status-row, set_status-IsKeyed, update_claimed-attempt, set_status-attempt,
}

step-IsKeyed : (event : Event) (rows : Table) → IsKeyed rows → IsKeyed (step event rows)
unfolding claim_batch write_batch
step-IsKeyed (on_claim now reclaim_after n) rows h =
    update_claimed-IsKeyed now (next_jobs now reclaim_after n rows) rows h
step-IsKeyed (on_write false reset_ok done failed) rows h = h
step-IsKeyed (on_write true false done failed) rows h = set_status-IsKeyed completed done rows h
step-IsKeyed (on_write true true done failed) rows h =
    set_status-IsKeyed pending failed (set_status completed done rows)
      (set_status-IsKeyed completed done rows h)

step-row : (event : Event) (i : ℕ) (rows : Table) → has_row i (step event rows) ≡ has_row i rows
unfolding claim_batch write_batch
step-row (on_claim now reclaim_after n) i rows =
    update_claimed-row now i (next_jobs now reclaim_after n rows) rows
step-row (on_write false reset_ok done failed) i rows = refl
step-row (on_write true false done failed) i rows = set_status-row completed i done rows
step-row (on_write true true done failed) i rows =
    set_status-row pending i failed (set_status completed done rows)
    ∙ set_status-row completed i done rows

step-attempt :
    (event : Event) (i : ℕ) (rows : Table)
    → has_row i rows ≡ true
    → attempt_of i (step event rows) ≡ handed i event rows + attempt_of i rows
unfolding claim_batch write_batch
step-attempt (on_claim now reclaim_after n) i rows h =
    update_claimed-attempt now i (next_jobs now reclaim_after n rows) rows h
step-attempt (on_write false reset_ok done failed) i rows h = omega arith
step-attempt (on_write true false done failed) i rows h =
    omega (arith, set_status-attempt completed i done rows)
step-attempt (on_write true true done failed) i rows h = omega (
  arith,
  set_status-attempt pending i failed (set_status completed done rows),
  set_status-attempt completed i done rows,
)

handed-bound :
    (event : Event) (i : ℕ) (rows : Table)
    → IsKeyed rows
    → attempt_of i rows ≤ 6
    → handed i event rows + attempt_of i rows ≤ 6
unfolding claim_batch
handed-bound (on_write complete_ok reset_ok done failed) i rows keyed h = omega arith
handed-bound (on_claim now reclaim_after n) i rows keyed h =
    elim (Bool-cases (is_in i (next_jobs now reclaim_after n rows))) [
      | inl e ↦ rw e (omega (arith, next_jobs-attempt now reclaim_after n i rows keyed e))
      | inr e ↦ rw e (omega arith)
    ]

-- If ids are unique, over any sequence of claims and writes, by any workers, the attempts of an
-- image grow by exactly the times it is handed out, and from at most six stay at six at most: no
-- image is claimed more than six times.
pub claims_of-attempt :
    (i : ℕ) (events : List Event) (rows : Table)
    → IsKeyed rows
    → has_row i rows ≡ true
    → attempt_of i rows ≤ 6
    → (attempt_of i (run events rows) ≡ claims_of i events rows + attempt_of i rows)
      × (attempt_of i (run events rows) ≤ 6)
unfolding run claims_of
claims_of-attempt i [] rows keyed there h = (omega arith, h)
claims_of-attempt i (event ∷ events) rows keyed there h =
    let (count, bound) =
      claims_of-attempt i events (step event rows) (step-IsKeyed event rows keyed)
        (step-row event i rows ∙ there)
        (omega (arith, step-attempt event i rows there, handed-bound event i rows keyed h)) in
    (omega (arith, count, step-attempt event i rows there), bound)
