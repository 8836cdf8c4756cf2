-- ===== src/Embed/Images.antt =====
-- The table of images as the statements of embed/src/cli.rs see it: the claim of `fetch_batch` and
-- the two updates of `record`. A statement is one step.
pub mod Attempts
use lets_embed.Prelude.{
  ℕ, suc, ◌+◌, Bool, true, false, ◌&&◌, ◌||◌, List, [], ◌∷◌, ◌++◌, take, any, length, leb, ltb,
  ◌==◌, if◌then◌else◌,
}
use lets_embed.Prelude.Text.{Str}

pub data Status : Type 0 where
  pending processing completed : Status

pub record Row : Type 0 where
  pub id : ℕ
  pub name : Str
  pub status : Status
  pub attempt : ℕ
  -- In seconds, as `NOW()`.
  pub claimed_at : ℕ

abbrev pub Table : Type 0
Table = List Row

-- The conditions of the branches `pending` and `stranded`.
abbrev pub is_pending : Row → Bool
is_pending r = elim r.status [ pending ↦ leb r.attempt 5 | _ ↦ false ]

abbrev pub is_stranded : ℕ → ℕ → Row → Bool
is_stranded now reclaim_after r = elim r.status [
  | processing ↦ leb r.attempt 5 && ltb (r.claimed_at + reclaim_after) now
  | _ ↦ false
]

unfoldable pub ids_where : (Row → Bool) → Table → List ℕ
ids_where p [] = []
ids_where p (r ∷ rows) = let rest = ids_where p rows in if p r then r.id ∷ rest else rest

-- `next_jobs`.
unfoldable pub next_jobs : ℕ → ℕ → ℕ → Table → List ℕ
next_jobs now reclaim_after claim rows = take claim (
    take claim (ids_where is_pending rows)
    ++ take claim (ids_where (is_stranded now reclaim_after) rows))

abbrev pub is_in : ℕ → List ℕ → Bool
is_in i ids = any (λ j. i == j) ids

abbrev claimed : ℕ → Row → Row
claimed now r = record r { status = processing; attempt = suc r.attempt; claimed_at = now }

-- `UPDATE images SET status = 'processing', attempt = attempt + 1, claimed_at = NOW()`.
unfoldable pub update_claimed : ℕ → List ℕ → Table → Table
update_claimed now ids [] = []
update_claimed now ids (r ∷ rows) =
    (if is_in r.id ids then claimed now r else r) ∷ update_claimed now ids rows

-- The two updates of `record`.
unfoldable pub set_status : Status → List ℕ → Table → Table
set_status status ids [] = []
set_status status ids (r ∷ rows) =
    (if is_in r.id ids then record r { status = status } else r) ∷ set_status status ids rows

-- A claim with so many permits: the ids that it hands out, and the table after it.
unfoldable pub claim_batch : ℕ → ℕ → ℕ → Table → List ℕ × Table
claim_batch now reclaim_after claim rows =
    let ids = next_jobs now reclaim_after claim rows in (ids, update_claimed now ids rows)

-- A write of a batch, which images have embeddings and which failed, from whether the statements
-- succeed: the first that fails ends it.
unfoldable pub write_batch : Bool → Bool → List ℕ → List ℕ → Table → Table
write_batch false reset_ok completed_ids failed_ids rows = rows
write_batch true false completed_ids failed_ids rows = set_status completed completed_ids rows
write_batch true true completed_ids failed_ids rows =
    set_status pending failed_ids (set_status completed completed_ids rows)

-- What happens to the table: a worker claims, or writes what came of a batch. A worker that crashes
-- writes nothing.
pub data Event : Type 0 where
  on_claim : ℕ → ℕ → ℕ → Event
  on_write : Bool → Bool → List ℕ → List ℕ → Event

abbrev pub step : Event → Table → Table
step (on_claim now reclaim_after claim) rows = (claim_batch now reclaim_after claim rows).1
step (on_write complete_ok reset_ok completed_ids failed_ids) rows =
    write_batch complete_ok reset_ok completed_ids failed_ids rows

unfoldable pub run : List Event → Table → Table
run [] rows = rows
run (event ∷ events) rows = run events (step event rows)

-- How often an image is handed out.
abbrev pub handed : ℕ → Event → Table → ℕ
handed i (on_claim now reclaim_after claim) rows =
    if is_in i (claim_batch now reclaim_after claim rows).0 then 1 else 0
handed i (on_write complete_ok reset_ok completed_ids failed_ids) rows = 0

unfoldable pub claims_of : ℕ → List Event → Table → ℕ
claims_of i [] rows = 0
claims_of i (event ∷ events) rows = handed i event rows + claims_of i events (step event rows)
