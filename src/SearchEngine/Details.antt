-- ===== src/SearchEngine/Details.antt =====
-- `list_post_images`, `image_details`, `list_post_videos` and `video_details` of
-- search_engine/src/lib.rs.
use lets_embed.Prelude.{ℕ, Bool, Option, none, some, List, [], ◌∷◌, find, ltb, map, if◌then◌else◌}
use lets_embed.Prelude.Int.{ℤ}
use lets_embed.Prelude.Results.{Result, ok, guard, ok_or, ◌>>=◌, ◌>>◌}
use lets_embed.Prelude.Text.{Str, codes}
use lets_embed.SearchEngine.Random.{same_id}
use lets_embed.SearchEngine.Rows.{
  Post, Image, Video, Named, Link, Scored, ImageDetails, VideoDetails, order_by, join_rows,
}
use lets_embed.SearchEngine.Queries.{Db, linked_ids}

-- The left ids of the links to an id.
unfoldable pub linking_ids : ℤ → List Link → List ℤ
linking_ids i [] = []
linking_ids i (l ∷ links) =
    let rest = linking_ids i links in if same_id l.right i then l.left ∷ rest else rest

abbrev first {ℓ} : {A : Type ℓ} → List A → Option A
first [] = none
first (x ∷ xs) = some x

-- The scores of an image's tags, and the tags in that order.
unfoldable pub tag_scores : ℤ → List Scored → List Scored
tag_scores i [] = []
tag_scores i (s ∷ scores) =
    let rest = tag_scores i scores in if same_id s.image_id i then s ∷ rest else rest

abbrev pub higher_score : Scored → Scored → Bool
higher_score s t = ltb t.score s.score

abbrev tag_id_of : Scored → ℤ
tag_id_of s = s.wd_tag_id

module _ (db : Db) where
  abbrev database_error : Str
  database_error = codes "database error"

  -- A statement of the request, by its number.
  abbrev read {ℓ} : {A : Type ℓ} → ℕ → A → Result A
  read n rows = guard (db.reads n) database_error >> ok rows

  -- `list_post_images` and `list_post_videos`.
  unfoldable pub list_post_images : ℤ → Result (List Image)
  list_post_images post_id = read 0 (
      join_rows (λ (i : Image). i.id) (linked_ids db post_id db.tables.post_images)
        db.tables.images)

  unfoldable pub list_post_videos : ℤ → Result (List Video)
  list_post_videos post_id = read 0 (
      join_rows (λ (v : Video). v.id) (linked_ids db post_id db.tables.post_videos)
        db.tables.videos)

  -- The first post that is linked with an image or a video, and its authors.
  unfoldable pub post_of : ℤ → List Link → Option Post
  post_of i links = first (join_rows (λ (p : Post). p.id) (linking_ids i links) db.tables.posts)

  unfoldable pub authors_of : Option Post → Result (List Named)
  authors_of none = ok []
  authors_of (some p) =
      read 2 (
        join_rows (λ (a : Named). a.id) (linking_ids p.id db.tables.author_posts) db.tables.authors)

  unfoldable pub tags_of : ℤ → List Named
  tags_of i =
      join_rows (λ (t : Named). t.id)
        (map tag_id_of (order_by higher_score (tag_scores i db.tables.wd_tag_images)))
        db.tables.wd_tags

  -- `image_details`.
  unfoldable pub image_details : ℤ → Result ImageDetails
  image_details id = do
    guard (db.reads 0) database_error
    image ← ok_or (find (λ (i : Image). same_id i.id id) db.tables.images) (codes "row not found")
    post ← read 1 (post_of id db.tables.post_images)
    authors ← authors_of post
    tags ← read 3 (tags_of id)
    ok (record { image = image; post = post; authors = authors; tags = tags })

  -- `video_details`, whose tags are left empty.
  unfoldable pub video_details : ℤ → Result VideoDetails
  video_details id = do
    guard (db.reads 0) database_error
    video ← ok_or (find (λ (v : Video). same_id v.id id) db.tables.videos) (codes "row not found")
    post ← read 1 (post_of id db.tables.post_videos)
    authors ← authors_of post
    ok (record { video = video; post = post; authors = authors; tags = [] })
