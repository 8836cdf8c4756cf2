-- ===== src/SearchEngine/Embedding/Cached.antt =====
-- The cache of the search by text, against the search without it.
use lets_embed.Prelude.{
  ℕ, ◌≡◌, refl, sym, ap, ◌∙◌, Bool, true, Option, none, some, List, [], ◌∷◌, all, ◌==◌, ==_iff,
  arith, Table, put, delete, number_key, Bool-cases, inl, inr,
}
use lets_embed.Prelude.Int.{ℤ}
use lets_embed.Prelude.Results.{Result, ok, err, Result-cases}
use lets_embed.Prelude.Text.{Str}
use lets_embed.SearchEngine.Lazy.{session}
use lets_embed.SearchEngine.Rows.{Image}
use lets_embed.SearchEngine.Embedding.{
  Engine, State, embedded, with_session, clip_embedding, search_clip_inner, keep_text, or_made,
  cached_text, search_clip_cached,
}

-- A search that is asked of the engine, or an entry that the cache drops.
pub data Event {ℓ} (S : Type ℓ) : Type ℓ where
  on_search : ℕ → Option S → List Str → ℤ → ℤ → Event S
  on_evict : ℕ → Event S

-- The hash tells the texts that are asked for apart.
abbrev pub HasNoCollision {ℓ} : {V E : Type ℓ} → Engine V E → (List Str → Bool) → Type 0
HasNoCollision engine asked =
    (d d' : List Str)
    → asked d ≡ true
    → asked d' ≡ true
    → engine.models.hash d ≡ engine.models.hash d'
    → d ≡ d'

-- Whether a search asks for such texts.
abbrev pub asks {ℓ} : {S : Type ℓ} → (List Str → Bool) → Event S → Bool
asks asked (on_search now load d limit offset) = asked d
asks asked (on_evict h) = true

module _ {ℓ} {S V E : Type ℓ} (engine : Engine V E) where
  unfoldable pub serve : Event S → State S E → State S E
  serve (on_search now load describes limit offset) st =
      (search_clip_cached engine now load describes limit offset st).1
  serve (on_evict h) st = record st { text_cache = delete h st.text_cache }

  unfoldable pub run : List (Event S) → State S E → State S E
  run [] st = st
  run (event ∷ events) st = run events (serve event st)

  with_session-ok :
      (s : Option S) (r : Result E) (e : E) → with_session engine s r ≡ ok e → r ≡ ok e
  with_session-ok none r e h = absurd (ground arith)
  with_session-ok (some s) r e h = h

  clip_embedding-made :
      (now : ℕ) (load : Option S) (d : List Str) (st : State S E) (e : E)
      → (clip_embedding engine now load d st).0 ≡ ok e
      → embedded engine d ≡ ok e
  unfolding clip_embedding
  clip_embedding-made now load d st e h = elim (Bool-cases engine.tokenizer) [
    | inr t ↦ absurd (ground (arith, t, h))
    | inl t ↦ elim (Bool-cases engine.clip_text) [
      | inr c ↦ absurd (ground (arith, t, c, h))
      | inl c ↦
          with_session-ok (session now load st.clip_model).0 (embedded engine d) e
            (ground (arith, t, c, h))
    ]
  ]

  clip_embedding-cache :
      (now : ℕ) (load : Option S) (d : List Str) (st : State S E)
      → (clip_embedding engine now load d st).1.text_cache ≡ st.text_cache
  unfolding clip_embedding
  clip_embedding-cache now load d st = elim (Bool-cases engine.tokenizer) [
    | inr t ↦ rw t refl
    | inl t ↦ elim (Bool-cases engine.clip_text) [ inr c ↦ rw (t, c) refl | inl c ↦ rw (t, c) refl ]
  ]

module _ {ℓ} {S V E : Type ℓ} (engine : Engine V E) (asked : List Str → Bool) where
  -- What is in the cache is what the model makes of the texts.
  abbrev pub IsFaithful : State S E → Type ℓ
  IsFaithful st =
      (d : List Str) (e : E)
      → asked d ≡ true
      → st.text_cache (engine.models.hash d) ≡ some e
      → embedded engine d ≡ ok e

  put-IsFaithful :
      HasNoCollision engine asked
      → (d : List Str) (e : E) (st : State S E) → asked d ≡ true
      → IsFaithful st
      → embedded engine d ≡ ok e
      → IsFaithful (record st { text_cache = put (engine.models.hash d) e st.text_cache })
  put-IsFaithful apart d e st ask faithful made d' e' ask' h =
      elim (Bool-cases (engine.models.hash d == engine.models.hash d')) [
        | inl same ↦
            let equal : d ≡ d' = apart d d' ask ask' ((==_iff _ _).0 same) in
            let kept : e ≡ e' = ground (arith, h, same) in
            ap (embedded engine) (sym equal) ∙ (made ∙ ap ok kept)
        | inr other ↦ faithful d' e' ask' (ground (arith, h, other))
      ]

  keep_text-IsFaithful :
      HasNoCollision engine asked
      → (d : List Str) (r : Result E × State S E) → asked d ≡ true
      → IsFaithful r.1
      → ((e : E) → r.0 ≡ ok e → embedded engine d ≡ ok e)
      → IsFaithful (keep_text engine d r).1
        × ((e : E) → (keep_text engine d r).0 ≡ ok e → embedded engine d ≡ ok e)
  keep_text-IsFaithful apart d (err m, st) ask faithful made =
      (faithful, λ e h. absurd (ground arith))
  keep_text-IsFaithful apart d (ok e, st) ask faithful made =
      (put-IsFaithful apart d e st ask faithful (made e refl), λ e' h. made e' h)

  -- The state holds true entries only, and the embedding is that of the texts.
  abbrev pub IsTrue : List Str → Result E × State S E → Type ℓ
  IsTrue d r = IsFaithful r.1 × ((e : E) → r.0 ≡ ok e → embedded engine d ≡ ok e)

  or_made-IsTrue :
      (d : List Str) (hit : Option E) (st : State S E) (r : Result E × State S E)
      → asked d ≡ true
      → IsFaithful st
      → st.text_cache (engine.models.hash d) ≡ hit
      → IsTrue d r
      → IsTrue d (or_made engine hit st r)
  or_made-IsTrue d none st r ask faithful same h = h
  or_made-IsTrue d (some e) st r ask faithful same h =
      (faithful, λ e' k. faithful d e' ask (same ∙ ground (arith, k)))

  cached_text-IsTrue :
      HasNoCollision engine asked
      → (now : ℕ) (load : Option S) (d : List Str) (st : State S E) → asked d ≡ true
      → IsFaithful st
      → IsTrue d (cached_text engine now load d st)
  unfolding cached_text
  cached_text-IsTrue apart now load d st ask faithful =
      or_made-IsTrue d (st.text_cache (engine.models.hash d)) st
        (keep_text engine d (clip_embedding engine now load d st)) ask faithful refl
        (keep_text-IsFaithful apart d (clip_embedding engine now load d st) ask
          (λ d' e' ask' h. faithful d' e' ask' (
            ap (λ (t : Table ℕ E). t (engine.models.hash d'))
              (sym (clip_embedding-cache engine now load d st))
            ∙ h))
          (λ e h. clip_embedding-made engine now load d st e h))

  serve-IsFaithful :
      HasNoCollision engine asked
      → (event : Event S) (st : State S E) → asks asked event ≡ true
      → IsFaithful st
      → IsFaithful (serve engine event st)
  unfolding serve search_clip_cached
  serve-IsFaithful apart (on_search now load d limit offset) st ask faithful =
      (cached_text-IsTrue apart now load d st ask faithful).0
  serve-IsFaithful apart (on_evict h) st ask faithful =
      λ d e ask' hit. faithful d e ask' (ground (arith, hit))

  run-IsFaithful :
      HasNoCollision engine asked
      → (events : List (Event S)) (st : State S E) → all (asks asked) events ≡ true
      → IsFaithful st
      → IsFaithful (run engine events st)
  unfolding run
  run-IsFaithful apart [] st ask faithful = faithful
  run-IsFaithful apart (event ∷ events) st ask faithful =
      run-IsFaithful apart events (serve engine event st) (ground (arith, ask))
        (serve-IsFaithful apart event st (ground (arith, ask)) faithful)

  -- If the hash tells the texts that are asked for apart, after any cached searches for them and
  -- any evictions from an empty cache, a cached search that answers has the rows of the embedding
  -- that the model makes of its own texts.
  pub search_clip_cached_lem :
      HasNoCollision engine asked
      → (events : List (Event S)) (st : State S E) → ((h : ℕ) → st.text_cache h ≡ none)
      → all (asks asked) events ≡ true
      → (now : ℕ) (load : Option S) (d : List Str) (limit offset : ℤ) (rows : List Image)
      → asked d ≡ true
      → (search_clip_cached engine now load d limit offset (run engine events st)).0 ≡ ok rows
      → (e : E) × (embedded engine d ≡ ok e) × (search_clip_inner engine e limit offset ≡ ok rows)
  unfolding search_clip_cached
  search_clip_cached_lem apart events st none_yet seen now load d limit offset rows ask h =
      let faithful =
        run-IsFaithful apart events st seen
          (λ d e ask' hit. absurd (ground (arith, none_yet (engine.models.hash d), hit))) in
      elim (Result-cases (cached_text engine now load d (run engine events st)).0) [
        | inl (m, e) ↦ absurd (ground (arith, h, e))
        | inr (v, e) ↦ (
          v,
          (cached_text-IsTrue apart now load d (run engine events st) ask faithful).1 v e,
          ground (arith, h, e),
        )
      ]
