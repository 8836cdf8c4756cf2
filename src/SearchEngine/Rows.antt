-- ===== src/SearchEngine/Rows.antt =====
-- The rows that search_engine/src/lib.rs works on (search_types/src/lib.rs and the tables of the
-- database), and the clauses of SQL that its statements share.
use lets_embed.Prelude.{
  ℕ, Bool, true, false, ◌||◌, Option, none, some, List, [], ◌∷◌, take, drop, find, if◌then◌else◌,
}
use lets_embed.Prelude.Int.{ℤ, pos, pos_part, ltb_ℤ}
use lets_embed.Prelude.Results.{Result, ok, err}
use lets_embed.Prelude.Text.{Str, codes}
use lets_embed.SearchEngine.Random.{same_id}

pub record Post : Type 0 where
  pub id : ℤ
  pub title : Str

pub record Image : Type 0 where
  pub id : ℤ
  pub name : Str
  pub width : ℤ
  pub height : ℤ

pub record Video : Type 0 where
  pub id : ℤ
  pub name : Str
  pub width : ℤ
  pub height : ℤ
  pub duration : ℤ

-- `Author` and `Tag` have the same two fields.
pub record Named : Type 0 where
  pub id : ℤ
  pub name : Str

-- A row of a table that joins two others, by the ids of both.
pub record Link : Type 0 where
  pub left : ℤ
  pub right : ℤ

-- A row of `wd_tag_images`.
pub record Scored : Type 0 where
  pub wd_tag_id : ℤ
  pub image_id : ℤ
  pub score : ℕ

-- A row of `wd_tag_translations`.
pub record Translation : Type 0 where
  pub tag_id : ℤ
  pub translation : Str

pub record ImageDetails : Type 0 where
  pub image : Image
  pub post : Option Post
  pub authors : List Named
  pub tags : List Named

pub record VideoDetails : Type 0 where
  pub video : Video
  pub post : Option Post
  pub authors : List Named
  pub tags : List Named

pub record Tables : Type 0 where
  pub posts : List Post
  pub images : List Image
  pub videos : List Video
  pub authors : List Named
  pub tags : List Named
  pub wd_tags : List Named
  pub author_posts : List Link
  pub tag_posts : List Link
  pub post_images : List Link
  pub post_videos : List Link
  pub wd_tag_images : List Scored
  pub wd_tag_translations : List Translation

-- `ORDER BY key DESC` for a test of what comes first.
module _ {ℓ} {A : Type ℓ} (precedes : A → A → Bool) where
  unfoldable pub insert_by : A → List A → List A
  insert_by x [] = x ∷ []
  insert_by x (y ∷ ys) = let rest = insert_by x ys in if precedes y x then y ∷ rest else x ∷ y ∷ ys

  unfoldable pub order_by : List A → List A
  order_by [] = []
  order_by (x ∷ xs) = insert_by x (order_by xs)

-- `WHERE`.
unfoldable pub where_rows {ℓ} : {A : Type ℓ} → (A → Bool) → List A → List A
where_rows p [] = []
where_rows p (x ∷ xs) = let rest = where_rows p xs in if p x then x ∷ rest else rest

-- A join of ids with the rows that they name, in the order of the ids.
unfoldable pub join_rows {ℓ} : {A : Type ℓ} → (A → ℤ) → List ℤ → List A → List A
join_rows id_of [] rows = []
join_rows id_of (i ∷ ids) rows =
    let rest = join_rows id_of ids rows in
    elim (find (λ x. same_id (id_of x) i) rows) [ none ↦ rest | some x ↦ x ∷ rest ]

-- `LIMIT` and `OFFSET`, behind the check of both.
unfoldable pub limited {ℓ} : {A : Type ℓ} → ℤ → ℤ → List A → Result (List A)
limited limit offset rows =
    if ltb_ℤ limit (pos 0) || ltb_ℤ offset (pos 0)
    then err (codes "both limit and offset should >= 0")
    else ok (take (pos_part limit) (drop (pos_part offset) rows))

-- `fetch(..).filter_map(|res| ready(res.ok()))`: a statement that fails gives no rows.
abbrev pub streamed {ℓ} : {A : Type ℓ} → Bool → List A → List A
streamed true rows = rows
streamed false rows = []
