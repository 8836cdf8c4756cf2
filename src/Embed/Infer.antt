-- ===== src/Embed/Infer.antt =====
-- What `infer` of embed/src/cli.rs makes of a batch, and what `record` writes of it. The models are
-- parameters; a decoded image is one input for each of the three.
pub mod Aligned
use lets_embed.Prelude.{ℕ, Option, none, some, List, [], ◌∷◌, ◌++◌, map}
use lets_embed.Prelude.Results.{Result, ok, err, ◌>>=◌}

-- The inputs and the outputs of the three models.
pub record Models {ℓ} (A B C X Y Z : Type ℓ) : Type ℓ where
  pub infer_tag : List A → Result (List X)
  pub infer_clip : List B → Result (List Y)
  pub infer_dino : List C → Result (List Z)

module _ {ℓ} {A B C : Type ℓ} where
  -- The fold over a batch: the images that were decoded, with their ids, and the other ids.
  unfoldable pub some_ids : List (ℕ × Option (A × B × C)) → List ℕ
  some_ids [] = []
  some_ids ((id, none) ∷ batch) = some_ids batch
  some_ids ((id, some o) ∷ batch) = id ∷ some_ids batch

  unfoldable pub none_ids : List (ℕ × Option (A × B × C)) → List ℕ
  none_ids [] = []
  none_ids ((id, none) ∷ batch) = id ∷ none_ids batch
  none_ids ((id, some o) ∷ batch) = none_ids batch

  unfoldable pub images : List (ℕ × Option (A × B × C)) → List (A × B × C)
  images [] = []
  images ((id, none) ∷ batch) = images batch
  images ((id, some o) ∷ batch) = o ∷ images batch

-- `wd_res.into_iter().zip(clip_res).zip(dino_res)`.
unfoldable pub zip3 {ℓ} : {X Y Z : Type ℓ} → List X → List Y → List Z → List (X × Y × Z)
zip3 (x ∷ xs) (y ∷ ys) (z ∷ zs) = (x, y, z) ∷ zip3 xs ys zs
zip3 _ _ _ = []

-- `ids.zip(results.map(Some).chain(repeat(None)))`.
unfoldable pub zip_or_none {ℓ} : {R : Type ℓ} → List ℕ → List R → List (ℕ × Option R)
zip_or_none [] rs = []
zip_or_none (id ∷ ids) [] = (id, none) ∷ zip_or_none ids []
zip_or_none (id ∷ ids) (r ∷ rs) = (id, some r) ∷ zip_or_none ids rs

module _ {ℓ} {A B C X Y Z : Type ℓ} (models : Models A B C X Y Z) where
  -- The three models one after another, on the images of a batch.
  unfoldable pub run_models : List (A × B × C) → Result (List (X × Y × Z))
  run_models inputs = do
    tags ← models.infer_tag (map (λ (o : A × B × C). o.0) inputs)
    clips ← models.infer_clip (map (λ (o : A × B × C). o.1) inputs)
    dinos ← models.infer_dino (map (λ (o : A × B × C). o.2) inputs)
    ok (zip3 tags clips dinos)

  abbrev pub results_or_none : List ℕ → Result (List (X × Y × Z)) → List (ℕ × Option (X × Y × Z))
  results_or_none ids (err e) = zip_or_none ids []
  results_or_none ids (ok rs) = zip_or_none ids rs

  abbrev pub unless_empty : List ℕ → List (A × B × C) → List ℕ → List (ℕ × Option (X × Y × Z))
  unless_empty [] inputs nones = zip_or_none nones []
  unless_empty (id ∷ ids) inputs nones = results_or_none ((id ∷ ids) ++ nones) (run_models inputs)

  -- The results of a batch; without a decoded image the models are not run.
  unfoldable pub infer_batch : List (ℕ × Option (A × B × C)) → List (ℕ × Option (X × Y × Z))
  infer_batch batch = unless_empty (some_ids batch) (images batch) (none_ids batch)

-- The ids that `record` writes as completed, and those that it sets back.
unfoldable pub completed_ids {ℓ} : {R : Type ℓ} → List (ℕ × Option R) → List ℕ
completed_ids [] = []
completed_ids ((id, some r) ∷ res) = id ∷ completed_ids res
completed_ids ((id, none) ∷ res) = completed_ids res

unfoldable pub failed_ids {ℓ} : {R : Type ℓ} → List (ℕ × Option R) → List ℕ
failed_ids [] = []
failed_ids ((id, some r) ∷ res) = failed_ids res
failed_ids ((id, none) ∷ res) = id ∷ failed_ids res
