-- ===== src/Embed/Infer/Aligned.antt =====
-- Each image of a batch gets its own results.
use mathlib.Core.List.{Perm, perm_middle}
use mathlib.Core.List.Perm
use lets_embed.Prelude.{
  ℕ, ◌≡◌, refl, sym, ap, subst, ◌∙◌, Option, none, some, List, [], ◌∷◌, ◌++◌, map, length, suc,
  arith,
}
use lets_embed.Prelude.Results.{ok}
use lets_embed.Embed.Infer.{
  Models, some_ids, none_ids, images, zip3, zip_or_none, run_models, unless_empty, infer_batch,
}

-- Models that work on each input by itself, and answer in order.
pub record IsPointwise {ℓ} {A B C X Y Z : Type ℓ} (models : Models A B C X Y Z) : Type ℓ where
  pub tag : A → X
  pub clip : B → Y
  pub dino : C → Z
  pub tags : (l : List A) → models.infer_tag l ≡ ok (map tag l)
  pub clips : (l : List B) → models.infer_clip l ≡ ok (map clip l)
  pub dinos : (l : List C) → models.infer_dino l ≡ ok (map dino l)

module _ {ℓ} {A B C X Y Z : Type ℓ} (models : Models A B C X Y Z) (p : IsPointwise models) where
  abbrev pub one : A × B × C → X × Y × Z
  one (a, b, c) = (p.tag a, p.clip b, p.dino c)

  -- What an image should get.
  abbrev pub own : ℕ × Option (A × B × C) → ℕ × Option (X × Y × Z)
  own (id, none) = (id, none)
  own (id, some o) = (id, some (one o))

  zip3-one :
      (l : List (A × B × C))
      → zip3
          (map p.tag (map (λ (o : A × B × C). o.0) l))
          (map p.clip (map (λ (o : A × B × C). o.1) l))
          (map p.dino (map (λ (o : A × B × C). o.2) l))
        ≡ map one l
  unfolding zip3
  zip3-one [] = refl
  zip3-one (o ∷ l) = ap (λ t. one o ∷ t) (zip3-one l)

  run_models-one : (l : List (A × B × C)) → run_models models l ≡ ok (map one l)
  unfolding run_models
  run_models-one l =
      rw
        (
          p.tags (map (λ (o : A × B × C). o.0) l),
          p.clips (map (λ (o : A × B × C). o.1) l),
          p.dinos (map (λ (o : A × B × C). o.2) l),
        )
        (ap ok (zip3-one l))

  zip_or_none-append :
      (batch : List (ℕ × Option (A × B × C))) (nones : List ℕ)
      → zip_or_none (some_ids batch ++ nones) (map one (images batch))
        ≡ zip_or_none (some_ids batch) (map one (images batch)) ++ zip_or_none nones []
  unfolding some_ids images zip_or_none
  zip_or_none-append [] nones = refl
  zip_or_none-append ((id, none) ∷ batch) nones = zip_or_none-append batch nones
  zip_or_none-append ((id, some o) ∷ batch) nones =
      ap (λ t. (id, some (one o)) ∷ t) (zip_or_none-append batch nones)

  zipped-perm :
      (batch : List (ℕ × Option (A × B × C)))
      → Perm
          (zip_or_none (some_ids batch) (map one (images batch)) ++ zip_or_none (none_ids batch) [])
          (map own batch)
  unfolding some_ids none_ids images zip_or_none
  zipped-perm [] = Perm.refl []
  zipped-perm ((id, some o) ∷ batch) = Perm.cons (id, some (one o)) (zipped-perm batch)
  zipped-perm ((id, none) ∷ batch) =
      Perm.trans
        (perm_middle (zip_or_none (some_ids batch) (map one (images batch)))
          (zip_or_none (none_ids batch) []))
        (Perm.cons (id, none) (zipped-perm batch))

  same_length :
      (batch : List (ℕ × Option (A × B × C))) → length (some_ids batch) ≡ length (images batch)
  unfolding some_ids images
  same_length [] = refl
  same_length ((id, none) ∷ batch) = same_length batch
  same_length ((id, some o) ∷ batch) = ap suc (same_length batch)

  unless_empty-zip :
      (ids nones : List ℕ) (inputs : List (A × B × C))
      → length ids ≡ length inputs
      → unless_empty models ids inputs nones ≡ zip_or_none (ids ++ nones) (map one inputs)
  unless_empty-zip [] nones [] h = refl
  unless_empty-zip [] nones (o ∷ inputs) h = absurd (omega arith)
  unless_empty-zip (id ∷ ids) nones inputs h = rw (run_models-one inputs) refl

  -- If the models work on each input by itself and answer in order, the results of a batch are, up
  -- to order, each image with its own results, and nothing for each image that was not decoded.
  pub infer_batch-own :
      (batch : List (ℕ × Option (A × B × C))) → Perm (infer_batch models batch) (map own batch)
  unfolding infer_batch
  infer_batch-own batch =
      subst (λ l. Perm l (map own batch))
        (sym (
          unless_empty-zip (some_ids batch) (none_ids batch) (images batch) (same_length batch)
          ∙ zip_or_none-append batch (none_ids batch)))
        (zipped-perm batch)
