-- ===== src/SearchEngine/Queries.antt =====
-- The listings and the searches by text of `Engine` in search_engine/src/lib.rs.
pub mod Pages
use lets_embed.Prelude.{
  ℕ, Bool, true, false, ◌&&◌, ◌||◌, Option, none, some, List, [], ◌∷◌, ◌++◌, any, map, ltb, ◌==◌,
  is_some, if◌then◌else◌,
}
use lets_embed.Prelude.Int.{ℤ, pos, pos_part, leb_ℤ, ltb_ℤ}
use lets_embed.Prelude.Results.{Result, ok, err, guard, ◌>>=◌, ◌>>◌}
use lets_embed.Prelude.Text.{Str, codes}
use lets_embed.SearchEngine.Random.{same_id, random_ids}
use lets_embed.SearchEngine.Rows.{
  Post, Image, Named, Link, Scored, Translation, Tables, order_by, where_rows, join_rows, limited,
  streamed,
}

-- The database: its rows, whether each statement of a request succeeds, and `text ILIKE pattern`.
pub record Db : Type 0 where
  pub tables : Tables
  pub reads : ℕ → Bool
  pub ilike : Str → Str → Bool

abbrev database_error : Str
database_error = codes "database error"

abbrev pub newer_post : Post → Post → Bool
newer_post p q = ltb_ℤ q.id p.id

-- `MIN(id)` and `MAX(id)`.
unfoldable pub bounds : List ℤ → Option (ℤ × ℤ)
bounds [] = none
bounds (i ∷ ids) = elim (bounds ids) [
  | none ↦ some (i, i)
  | some b ↦ some ((if leb_ℤ i b.0 then i else b.0), if leb_ℤ i b.1 then b.1 else i)
]

abbrev sampled : ℤ → ℤ → ℤ → Option (ℤ × ℤ) → List ℤ
sampled seed limit offset none = []
sampled seed limit offset (some b) = random_ids seed b.0 b.1 (pos_part limit) (pos_part offset)

-- The check of the limit and the offset, before anything else.
abbrev pub checked : ℤ → ℤ → Result {0} Unit
checked limit offset =
    guard (leb_ℤ (pos 0) limit && leb_ℤ (pos 0) offset) (codes "both limit and offset should >= 0")

abbrev is_nonempty : Str → Bool
is_nonempty [] = false
is_nonempty (c ∷ s) = true

module _ (db : Db) where
  abbrev pub contains : Str → Str → Bool
  contains needle text = db.ilike text (codes "%" ++ (needle ++ codes "%"))

  -- `newest_posts`.
  unfoldable pub newest_posts : ℤ → ℤ → Result (List Post)
  newest_posts limit offset = do
    rows ← limited limit offset (order_by newer_post db.tables.posts)
    ok (streamed (db.reads 0) rows)

  unfoldable pub random_rows {ℓ} : {A : Type ℓ} → (A → ℤ) → List A → ℤ → ℤ → ℤ → Result (List A)
  random_rows id_of rows seed limit offset = do
    checked limit offset
    guard (db.reads 0) database_error
    ok (
        streamed (db.reads 1)
          (join_rows id_of (sampled seed limit offset (bounds (map id_of rows))) rows))

  -- `random_posts` and `random_images`.
  unfoldable pub random_posts : ℤ → ℤ → ℤ → Result (List Post)
  random_posts = random_rows (λ (p : Post). p.id) db.tables.posts

  unfoldable pub random_images : ℤ → ℤ → ℤ → Result (List Image)
  random_images = random_rows (λ (i : Image). i.id) db.tables.images

  -- A search by a text that must not be empty.
  unfoldable pub searched {ℓ} : {A : Type ℓ} → Str → Str → ℤ → ℤ → List A → Result (List A)
  searched text message limit offset rows = do
    checked limit offset
    guard (is_nonempty text) message
    page ← limited limit offset rows
    ok (streamed (db.reads 0) page)

  unfoldable pub titled : Str → List Post
  titled title = order_by newer_post (where_rows (λ p. contains title p.title) db.tables.posts)

  -- `search_posts_by_title`.
  unfoldable pub search_posts_by_title : Str → ℤ → ℤ → Result (List Post)
  search_posts_by_title title limit offset =
      searched title (codes "title should not be empty") limit offset (titled title)

  -- The posts that are linked with the rows whose name is searched for, once for each link.
  unfoldable pub linked_ids : ℤ → List Link → List ℤ
  linked_ids i [] = []
  linked_ids i (l ∷ links) =
      let rest = linked_ids i links in if same_id l.left i then l.right ∷ rest else rest

  unfoldable pub named_ids : Str → List Named → List Link → List ℤ
  named_ids needle [] links = []
  named_ids needle (n ∷ names) links =
      let rest = named_ids needle names links in
      if contains needle n.name then linked_ids n.id links ++ rest else rest

  unfoldable pub linked_posts : Str → List Named → List Link → List Post
  linked_posts needle names links =
      order_by newer_post
        (join_rows (λ (p : Post). p.id) (named_ids needle names links) db.tables.posts)

  -- `search_posts_by_author` and `search_posts_by_tag`.
  unfoldable pub search_posts_by_author : Str → ℤ → ℤ → Result (List Post)
  search_posts_by_author author limit offset =
      searched author (codes "author name should not be empty") limit offset
        (linked_posts author db.tables.authors db.tables.author_posts)

  unfoldable pub search_posts_by_tag : Str → ℤ → ℤ → Result (List Post)
  search_posts_by_tag tag limit offset =
      searched tag (codes "tag should not be empty") limit offset
        (linked_posts tag db.tables.tags db.tables.tag_posts)

  -- `pos_tags`: whether a tag matches by its name or by a translation.
  unfoldable pub is_pos_tag : Str → ℤ → Bool
  is_pos_tag needle i =
      any (λ (t : Named). same_id t.id i && contains needle t.name) db.tables.wd_tags
      || any (λ (t : Translation). same_id t.tag_id i && contains needle t.translation)
          db.tables.wd_tag_translations

  -- `MAX(score)` over the matching tags of an image.
  unfoldable pub best_score : Str → ℤ → List Scored → Option ℕ
  best_score needle i [] = none
  best_score needle i (s ∷ scores) =
      let rest = best_score needle i scores in
      if same_id s.image_id i && is_pos_tag needle s.wd_tag_id
      then some (elim rest [ none ↦ s.score | some m ↦ if ltb s.score m then m else s.score ])
      else rest

  -- `img_match`, with the image.
  unfoldable pub img_match : Str → List Image → List (ℕ × Image)
  img_match needle [] = []
  img_match needle (i ∷ images) =
      let rest = img_match needle images in
      elim (best_score needle i.id db.tables.wd_tag_images) [ none ↦ rest | some m ↦ (m, i) ∷ rest ]

  abbrev pub better_match : ℕ × Image → ℕ × Image → Bool
  better_match (m, i) (n, j) = ltb n m || m == n && ltb_ℤ j.id i.id

  abbrev image_of : ℕ × Image → Image
  image_of (m, i) = i

  -- `search_images_by_tag`.
  unfoldable pub search_images_by_tag : Str → ℤ → ℤ → Result (List Image)
  search_images_by_tag tag limit offset =
      searched tag (codes "tag should not be empty") limit offset
        (map image_of (order_by better_match (img_match tag db.tables.images)))
