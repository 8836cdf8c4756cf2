-- ===== src/SearchEngine/Tests.antt =====
-- Runs of the search engine.
use mathlib.Core.List.{Perm}
use lets_embed.Prelude.{
  ℕ, ◌≡◌, ◌⊎◌, refl, Bool, true, false, ◌||◌, none, some, List, [], ◌∷◌, length, empty, ap, ◌≤◌,
  arith, all, is_some, if◌then◌else◌, sym, ◌∙◌, Bool-cases, inl, inr,
}
use lets_embed.Prelude.Int.{pos, negsuc}
use lets_embed.Prelude.Results.{ok}
use lets_embed.Prelude.Text.{Str, codes, str_eq, str_eq_iff}
use lets_embed.SearchEngine.Random.{random_ids}
use lets_embed.SearchEngine.Random.Sampled.{IsSample, random_ids-IsSample}
use lets_embed.SearchEngine.Lazy.{
  Model, session, reap, reaped, start, new, Reach, use_model, wake_up, here, next,
}
use lets_embed.SearchEngine.Lazy.Idle.{IsDropped, idle_unloaded}
use lets_embed.SearchEngine.Rows.{Post, Tables, order_by, insert_by, join_rows, limited}
use lets_embed.SearchEngine.Queries.{
  Db, newer_post, search_posts_by_author, searched, linked_posts, named_ids, linked_ids,
}
use lets_embed.SearchEngine.Queries.Pages.{pages, IsNewestFirst, newest_posts-pages}
use lets_embed.SearchEngine.Embedding.{
  Engine, Models, State, embedded, search_clip_inner, search_clip_cached, cached_text,
  clip_embedding,
}
use lets_embed.SearchEngine.Embedding.Cached.{
  Event, on_search, asks, serve, run, search_clip_cached_lem,
}

random_ids-IsSample_example : IsSample (pos 3) (pos 9) 4 (random_ids (negsuc 6) (pos 3) (pos 9) 4 8)
random_ids-IsSample_example = random_ids-IsSample (negsuc 6) 3 9 4 8 (omega arith) (omega arith)

-- A model that is used a second after its reaper has started.
abbrev loaded : Model Bool
loaded = record {
  clock = 1000;
  inner = (session 1000 (some true) (reaped 60000 0 (start 0)).inner).1;
  wake = (reaped 60000 0 (start {S = Bool} 0)).wake;
}

reach_loaded : Reach 60000 (start 0) loaded
unfolding start
reach_loaded =
    next (next here (wake_up (start 0) 0 (omega arith) (omega arith)))
      (use_model (reaped 60000 0 (start 0)) 1000 (some true) (unfold reaped in omega arith))

has_session : is_some loaded.inner.session ≡ true
unfolding session reaped reap start new
has_session = refl

not_late : loaded.clock ≤ loaded.wake
unfolding reaped reap start new
not_late = omega arith

idle_unloaded_example :
    let m1 = reaped 60000 loaded.wake loaded in
    let m2 = reaped 60000 m1.wake m1 in
    IsDropped 60000 loaded.inner.last_used m1 ⊎ IsDropped 60000 loaded.inner.last_used m2
idle_unloaded_example = idle_unloaded 60000 0 reach_loaded has_session not_late

abbrev post : ℕ → Post
post n = record { id = pos n; title = codes "a post" }

-- Two authors of one post whose names hold the same text.
abbrev tables : Tables
tables = record {
  posts = post 2 ∷ post 7 ∷ post 5 ∷ [];
  images = record { id = pos 1; name = codes "a.webp"; width = pos 10; height = pos 10 } ∷ [];
  videos = [];
  authors =
      record { id = pos 1; name = codes "ann" } ∷ record { id = pos 2; name = codes "anna" } ∷ [];
  tags = [];
  wd_tags = [];
  author_posts =
      record { left = pos 1; right = pos 7 } ∷ record { left = pos 2; right = pos 7 } ∷ [];
  tag_posts = [];
  post_images = [];
  post_videos = [];
  wd_tag_images = [];
  wd_tag_translations = [];
}

abbrev db : Db
db = record { tables = tables; reads = λ n. true; ilike = λ text pattern. true }

newest_posts-pages_example :
    let rows = order_by newer_post tables.posts in
    (pages db 2 2 0 ≡ ok rows) × Perm rows tables.posts × IsNewestFirst rows
newest_posts-pages_example = newest_posts-pages db 2 2 refl (omega arith)

-- A search by author lists a post once for each of its authors that match.
listed_twice : search_posts_by_author db (codes "ann") (pos 10) (pos 0) ≡ ok (post 7 ∷ post 7 ∷ [])
unfolding search_posts_by_author searched linked_posts named_ids linked_ids join_rows order_by
    insert_by limited
listed_twice = refl

-- Two texts that are asked for, and a hash that tells them apart.
abbrev red : List Str
red = codes "red" ∷ []

abbrev blue : List Str
blue = codes "blue" ∷ []

abbrev is_text : List Str → List Str → Bool
is_text (a ∷ []) (b ∷ []) = str_eq a b
is_text _ _ = false

is_text_lem : (d d' : List Str) → is_text d d' ≡ true → d ≡ d'
is_text_lem [] d' h = absurd (ground arith)
is_text_lem (a ∷ []) [] h = absurd (ground arith)
is_text_lem (a ∷ []) (b ∷ []) h = ap (λ x. x ∷ []) ((str_eq_iff a b).0 h)
is_text_lem (a ∷ []) (b ∷ c ∷ l) h = absurd (ground arith)
is_text_lem (a ∷ b ∷ l) d' h = absurd (ground arith)

abbrev asked : List Str → Bool
asked d = is_text d red || is_text d blue

abbrev hash_of : List Str → ℕ
hash_of d = if is_text d red then 0 else 1

hash_apart : (d d' : List Str) → asked d ≡ true → asked d' ≡ true → hash_of d ≡ hash_of d' → d ≡ d'
hash_apart d d' h k e = elim (Bool-cases (is_text d red)) [
  | inl r ↦
      let r' : is_text d' red ≡ true = ground (arith, r, h, k, e) in
      is_text_lem d red r ∙ sym (is_text_lem d' red r')
  | inr r ↦
      let b : is_text d blue ≡ true = ground (arith, r, h) in
      let b' : is_text d' blue ≡ true = ground (arith, r, k, e) in
      is_text_lem d blue b ∙ sym (is_text_lem d' blue b')
]

abbrev models : Models Str ℕ
models = record {
  infer_text = λ describes. ok (length describes ∷ []);
  convert_image = λ s. ok s;
  infer_vision = λ l. ok [];
  mean = λ l. length l;
  average = λ l. none;
  dinov3_of = λ i. none;
  by_clip = λ e l. l;
  by_dinov3 = λ o l. l;
  hash = hash_of;
}

abbrev engine : Engine Str ℕ
engine = record { models = models; db = db; tokenizer = true; clip_text = true; dinov3 = false }

abbrev state : State Bool ℕ
state = record { clip_model = new 0; dinov3_model = new 0; text_cache = empty; image_cache = empty }

abbrev events : List (Event Bool)
events = on_search 5 (some true) red (pos 1) (pos 0) ∷ []

asked-red : asked red ≡ true
unfolding str_eq
asked-red = refl

asked-events : all (asks asked) events ≡ true
unfolding str_eq
asked-events = refl

-- The model cannot be loaded again, and the cache has the text.
served :
    (search_clip_cached engine 9 none red (pos 1) (pos 0) (run engine events state)).0
    ≡ ok tables.images
unfolding run serve search_clip_cached cached_text clip_embedding embedded session search_clip_inner
    limited new str_eq
served = refl

search_clip_cached_lem_example :
    (e : ℕ) × (embedded engine red ≡ ok e)
    × (search_clip_inner engine e (pos 1) (pos 0) ≡ ok tables.images)
search_clip_cached_lem_example =
    search_clip_cached_lem engine asked hash_apart events state (λ h. refl) asked-events 9 none red
      (pos 1) (pos 0) tables.images asked-red served
