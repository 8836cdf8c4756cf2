-- ===== src/SearchEngine/Embedding.antt =====
-- The searches by embedding of `Engine` in search_engine/src/lib.rs, with their caches. The models,
-- their tokenizer, the hash and the order by distance are library code, and parameters here.
pub mod Cached
use lets_embed.Prelude.{
  ℕ, Bool, true, false, Option, none, some, List, [], ◌∷◌, Table, put, number_key, any,
  if◌then◌else◌,
}
use lets_embed.Prelude.Int.{ℤ}
use lets_embed.Prelude.Results.{Result, ok, err, guard, ◌>>=◌, ◌>>◌}
use lets_embed.Prelude.Text.{Str, codes}
use lets_embed.SearchEngine.Random.{same_id}
use lets_embed.SearchEngine.Rows.{Image, limited, streamed, where_rows}
use lets_embed.SearchEngine.Queries.{Db, checked}
use lets_embed.SearchEngine.Lazy.{Inner, session}

-- What the engine calls: a model maps texts or converted images to embeddings, `mean` is their
-- average, and the two orders are those of `<=>` on the two columns.
pub record Models {ℓ} (V E : Type ℓ) : Type ℓ where
  pub infer_text : List Str → Result (List E)
  pub convert_image : Str → Result V
  pub infer_vision : List V → Result (List E)
  pub mean : List E → E
  pub average : List E → Option E
  pub dinov3_of : Image → Option E
  pub by_clip : E → List Image → List Image
  pub by_dinov3 : Option E → List Image → List Image
  pub hash : List Str → ℕ

-- The engine's settings: which models it was given, and the database.
pub record Engine {ℓ} (V E : Type ℓ) : Type ℓ where
  pub models : Models V E
  pub db : Db
  pub tokenizer : Bool
  pub clip_text : Bool
  pub dinov3 : Bool

-- The two lazy models and the two caches.
pub record State {ℓ} (S E : Type ℓ) : Type ℓ where
  pub clip_model : Inner S
  pub dinov3_model : Inner S
  pub text_cache : Table ℕ E
  pub image_cache : Table ℕ E

-- `Engine::new`, as far as the models go: both halves of the text model, or neither.
unfoldable pub check_models : Bool → Bool → Result {0} Unit
check_models true true = ok tt
check_models false false = ok tt
check_models _ _ = err (codes "either both clip_text and tokenizer must be provided, or neither")

-- `try_collect`: the first error, or all.
unfoldable pub try_collect {ℓ κ} :
    {A : Type ℓ} {B : Type κ} → (A → Result B) → List A → Result (List B)
try_collect f [] = ok []
try_collect f (x ∷ xs) = do y ← f x; ys ← try_collect f xs; ok (y ∷ ys)

module _ {ℓ} {V E : Type ℓ} (engine : Engine V E) where
  abbrev pub models : Models V E
  models = engine.models

  -- What the model makes of the texts, and of the images.
  unfoldable pub embedded : List Str → Result E
  embedded describes = do es ← models.infer_text describes; ok (models.mean es)

  unfoldable pub embedded_images : List Str → Result E
  embedded_images images = do
    converted ← try_collect models.convert_image images
    es ← models.infer_vision converted
    ok (models.mean es)

  -- `search_clip_inner` and `search_dinov3_inner`.
  unfoldable pub search_clip_inner : E → ℤ → ℤ → Result (List Image)
  search_clip_inner e limit offset = do
    page ← limited limit offset (models.by_clip e engine.db.tables.images)
    ok (streamed (engine.db.reads 0) page)

  unfoldable pub search_dinov3_inner : Option E → ℤ → ℤ → Result (List Image)
  search_dinov3_inner o limit offset = do
    page ← limited limit offset (models.by_dinov3 o engine.db.tables.images)
    ok (streamed (engine.db.reads 0) page)

  -- The embeddings of the images with one of the ids, and `search_dinov3_by_id`.
  unfoldable pub embeddings_of : List ℤ → List Image → List E
  embeddings_of ids [] = []
  embeddings_of ids (i ∷ images) =
      let rest = embeddings_of ids images in
      if any (same_id i.id) ids
      then elim (models.dinov3_of i) [ none ↦ rest | some e ↦ e ∷ rest ]
      else rest

  unfoldable pub search_dinov3_by_id : List ℤ → ℤ → ℤ → Result (List Image)
  search_dinov3_by_id ids limit offset =
      search_dinov3_inner (models.average (embeddings_of ids engine.db.tables.images)) limit offset

module _ {ℓ} {S V E : Type ℓ} (engine : Engine V E) where
  -- The result of a model that is loaded.
  abbrev pub with_session : Option S → Result E → Result E
  with_session none r = err (codes "model not loaded")
  with_session (some s) r = r

  -- `clip_embedding` and `dinov3_embedding` at a time, with what a load of the model gives.
  unfoldable pub clip_embedding : ℕ → Option S → List Str → State S E → Result E × State S E
  clip_embedding now load describes st =
      if engine.tokenizer
      then if engine.clip_text
        then (let (s, inner) = session now load st.clip_model in
            (with_session s (embedded engine describes), record st { clip_model = inner }))
        else (err (codes "clip_text_session not enabled"), st)
      else (err (codes "tokenizer not enabled"), st)

  unfoldable pub dinov3_embedding : ℕ → Option S → List Str → State S E → Result E × State S E
  dinov3_embedding now load images st =
      if engine.dinov3
      then (let (s, inner) = session now load st.dinov3_model in
          (with_session s (embedded_images engine images), record st { dinov3_model = inner }))
      else (err (codes "dinov3_session not enblaed"), st)

  -- `search_clip` and `search_dinov3`.
  unfoldable pub search_clip :
      ℕ → Option S → List Str → ℤ → ℤ → State S E → Result (List Image) × State S E
  search_clip now load describes limit offset st =
      let (e, st') = clip_embedding now load describes st in
      ((e >>= λ e. search_clip_inner engine e limit offset), st')

  unfoldable pub search_dinov3 :
      ℕ → Option S → List Str → ℤ → ℤ → State S E → Result (List Image) × State S E
  search_dinov3 now load images limit offset st =
      let (e, st') = dinov3_embedding now load images st in
      ((e >>= λ e. search_dinov3_inner engine (some e) limit offset), st')

  -- `try_get_with` on a miss: an embedding is kept, an error is not.
  abbrev pub keep_text : List Str → Result E × State S E → Result E × State S E
  keep_text describes (err m, st) = (err m, st)
  keep_text describes (ok e, st) =
      (ok e, record st { text_cache = put (engine.models.hash describes) e st.text_cache })

  abbrev pub keep_image : List Str → Result E × State S E → Result E × State S E
  keep_image images (err m, st) = (err m, st)
  keep_image images (ok e, st) =
      (ok e, record st { image_cache = put (engine.models.hash images) e st.image_cache })

  -- A hit, or what is made on a miss.
  abbrev pub or_made : Option E → State S E → Result E × State S E → Result E × State S E
  or_made (some e) st r = (ok e, st)
  or_made none st r = r

  unfoldable pub cached_text : ℕ → Option S → List Str → State S E → Result E × State S E
  cached_text now load describes st =
      or_made (st.text_cache (engine.models.hash describes)) st
        (keep_text describes (clip_embedding now load describes st))

  unfoldable pub cached_image : ℕ → Option S → List Str → State S E → Result E × State S E
  cached_image now load images st =
      or_made (st.image_cache (engine.models.hash images)) st
        (keep_image images (dinov3_embedding now load images st))

  -- `search_clip_cached` and `search_dinov3_cached`, for images that have been read.
  unfoldable pub search_clip_cached :
      ℕ → Option S → List Str → ℤ → ℤ → State S E → Result (List Image) × State S E
  search_clip_cached now load describes limit offset st =
      let (e, st') = cached_text now load describes st in
      ((e >>= λ e. search_clip_inner engine e limit offset), st')

  unfoldable pub search_dinov3_cached :
      ℕ → Option S → List Str → ℤ → ℤ → State S E → Result (List Image) × State S E
  search_dinov3_cached now load images limit offset st =
      let (e, st') = cached_image now load images st in
      ((e >>= λ e. search_dinov3_inner engine (some e) limit offset), st')
