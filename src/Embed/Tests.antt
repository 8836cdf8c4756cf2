-- ===== src/Embed/Tests.antt =====
-- Runs of the embedding pipeline.
use mathlib.Core.List.{Perm}
use lets_embed.Prelude.{
  ℕ, suc, ◌+◌, ◌≤◌, ◌≡◌, refl, true, none, some, Option, List, [], ◌∷◌, map, arith,
}
use lets_embed.Prelude.Results.{ok}
use lets_embed.Prelude.Text.{codes}
use lets_embed.Embed.Images.{
  pending, Row, Table, Event, on_claim, on_write, run, claims_of, claim_batch, write_batch,
  next_jobs, ids_where, update_claimed, set_status,
}
use lets_embed.Embed.Images.Attempts.{attempt_of}
use lets_embed.Embed.Images.Attempts.Life.{claims_of-attempt}
use lets_embed.Embed.Infer.{Models, infer_batch}
use lets_embed.Embed.Infer.Aligned.{IsPointwise, own, infer_batch-own}
use lets_embed.Embed.Phase
use lets_embed.Embed.Phase.{claim, download, write, on_new, on_enter, on_leave, idle}

abbrev image : ℕ → Row
image n = record { id = n; name = codes "a"; status = pending; attempt = 0; claimed_at = 0 }

abbrev rows : Table
rows = image 1 ∷ image 2 ∷ []

-- The first worker is lost, and another one claims its image later and fails.
abbrev events : List Event
events = on_claim 100 60 1 ∷ on_claim 200 60 2 ∷ on_write true true [] (1 ∷ []) ∷ []

claims_of-attempt_example :
    (attempt_of 1 (run events rows) ≡ claims_of 1 events rows + attempt_of 1 rows)
    × (attempt_of 1 (run events rows) ≤ 6)
claims_of-attempt_example = claims_of-attempt 1 events rows (refl, (refl, tt)) refl (omega arith)

-- The image has been handed out twice.
handed_twice : claims_of 1 events rows ≡ 2
unfolding claims_of claim_batch write_batch next_jobs ids_where update_claimed set_status
handed_twice = refl

abbrev models : Models ℕ ℕ ℕ ℕ ℕ ℕ
models = record {
  infer_tag = λ l. ok (map suc l);
  infer_clip = λ l. ok (map suc l);
  infer_dino = λ l. ok (map suc l);
}

abbrev pointwise : IsPointwise models
pointwise = record {
  tag = suc;
  clip = suc;
  dino = suc;
  tags = λ l. refl;
  clips = λ l. refl;
  dinos = λ l. refl;
}

abbrev batch : List (ℕ × Option (ℕ × ℕ × ℕ))
batch = (7, none) ∷ (8, some (1, 2, 3)) ∷ []

infer_batch-own_example : Perm (infer_batch models batch) (map (own models pointwise) batch)
infer_batch-own_example = infer_batch-own models pointwise batch

abbrev stay : List Phase.Event
stay = on_new claim ∷ on_new claim ∷ on_enter 1 download ∷ on_leave 0 ∷ []
