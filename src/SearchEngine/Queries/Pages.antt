-- ===== src/SearchEngine/Queries/Pages.antt =====
-- The pages of a listing of the search engine, taken together.
use mathlib.Core.List.{Perm}
use mathlib.Core.List.Perm
use lets_embed.Prelude.{
  ℕ, zero, suc, ◌+◌, ◌*◌, ◌≤◌, ◌≡◌, refl, sym, ap, ◌∙◌, Bool, true, List, [], ◌∷◌, ◌++◌, take, drop,
  length, arith, Bool-cases, inl, inr,
}
use lets_embed.Prelude.Int.{pos, ◌≤ℤ◌}
use lets_embed.Prelude.Results.{Result, ok, ◌>>=◌}
use lets_embed.SearchEngine.Rows.{Post, insert_by, order_by, limited}
use lets_embed.SearchEngine.Queries.{Db, newer_post, newest_posts}

module _ {ℓ} {A : Type ℓ} where
  drop_none : (n : ℕ) → drop {A = A} n [] ≡ []
  drop_none zero = refl
  drop_none (suc n) = refl

  take_none : (n : ℕ) → take {A = A} n [] ≡ []
  take_none zero = refl
  take_none (suc n) = refl

  drop-drop : (m n c : ℕ) (l : List A) → c ≡ n + m → drop m (drop n l) ≡ drop c l
  drop-drop m zero c l h = ap (λ k. drop k l) (omega arith)
  drop-drop m (suc n) zero l h = absurd (omega arith)
  drop-drop m (suc n) (suc c) [] h = drop_none m
  drop-drop m (suc n) (suc c) (x ∷ l) h = drop-drop m n c l (omega arith)

  take-append_drop : (n m c : ℕ) (l : List A) → c ≡ n + m → take n l ++ take m (drop n l) ≡ take c l
  take-append_drop zero m c l h = ap (λ k. take k l) (omega arith)
  take-append_drop (suc n) m zero l h = absurd (omega arith)
  take-append_drop (suc n) m (suc c) [] h = take_none m
  take-append_drop (suc n) m (suc c) (x ∷ l) h =
      ap (λ t. x ∷ t) (take-append_drop n m c l (omega arith))

  take_whole : (n : ℕ) (l : List A) → length l ≤ n → take n l ≡ l
  take_whole n [] h = take_none n
  take_whole zero (x ∷ l) h = absurd (omega arith)
  take_whole (suc n) (x ∷ l) h = ap (λ t. x ∷ t) (take_whole n l (omega arith))

  module _ (precedes : A → A → Bool) where
    insert_by-perm : (x : A) (l : List A) → Perm (insert_by precedes x l) (x ∷ l)
    unfolding insert_by
    insert_by-perm x [] = Perm.refl (x ∷ [])
    insert_by-perm x (y ∷ l) = elim (Bool-cases (precedes y x)) [
      | inl e ↦ rw e (Perm.trans (Perm.cons y (insert_by-perm x l)) (Perm.swap x y l))
      | inr e ↦ rw e (Perm.refl (x ∷ y ∷ l))
    ]

    order_by-perm : (l : List A) → Perm (order_by precedes l) l
    unfolding order_by
    order_by-perm [] = Perm.refl []
    order_by-perm (x ∷ l) =
        Perm.trans (insert_by-perm x (order_by precedes l)) (Perm.cons x (order_by-perm l))

    length-insert_by : (x : A) (l : List A) → length (insert_by precedes x l) ≡ suc (length l)
    unfolding insert_by
    length-insert_by x [] = refl
    length-insert_by x (y ∷ l) = elim (Bool-cases (precedes y x)) [
      | inl e ↦ rw e (ap suc (length-insert_by x l))
      | inr e ↦ rw e refl
    ]

    length-order_by : (l : List A) → length (order_by precedes l) ≡ length l
    unfolding order_by
    length-order_by [] = refl
    length-order_by (x ∷ l) = length-insert_by x (order_by precedes l) ∙ ap suc (length-order_by l)

-- Newest first: no post is older than one behind it.
abbrev pub IsNext : Post → List Post → Type 0
IsNext p [] = Unit
IsNext p (q ∷ l) = q.id ≤ℤ p.id

abbrev pub IsNewestFirst : List Post → Type 0
IsNewestFirst [] = Unit
IsNewestFirst (p ∷ l) = IsNext p l × IsNewestFirst l

insert_by-IsNext :
    (q p : Post) (l : List Post) → p.id ≤ℤ q.id → IsNext q l → IsNext q (insert_by newer_post p l)
unfolding insert_by
insert_by-IsNext q p [] h k = h
insert_by-IsNext q p (r ∷ l) h k = elim (Bool-cases (newer_post r p)) [
  | inl e ↦ rw e k
  | inr e ↦ rw e h
]

insert_by-IsNewestFirst :
    (p : Post) (l : List Post) → IsNewestFirst l → IsNewestFirst (insert_by newer_post p l)
unfolding insert_by
insert_by-IsNewestFirst p [] h = (tt, tt)
insert_by-IsNewestFirst p (q ∷ l) h = elim (Bool-cases (newer_post q p)) [
  | inl e ↦ rw e (insert_by-IsNext q p l (ground (arith, e)) h.0, insert_by-IsNewestFirst p l h.1)
  | inr e ↦ rw e (ground (arith, e), h)
]

order_by-IsNewestFirst : (l : List Post) → IsNewestFirst (order_by newer_post l)
unfolding order_by
order_by-IsNewestFirst [] = tt
order_by-IsNewestFirst (p ∷ l) =
    insert_by-IsNewestFirst p (order_by newer_post l) (order_by-IsNewestFirst l)

limited-pos {ℓ} :
    {A : Type ℓ} (n o : ℕ) (rows : List A)
    → limited (pos n) (pos o) rows ≡ ok (take n (drop o rows))
unfolding limited
limited-pos n o rows = ground arith

suc_mul : (k n : ℕ) → suc k * n ≡ n + k * n
suc_mul k n = omega arith

module _ (db : Db) (size : ℕ) where
  -- The pages that a reader asks for, one after another.
  unfoldable pub pages : ℕ → ℕ → Result (List Post)
  pages zero offset = ok []
  pages (suc k) offset = do
    page ← newest_posts db (pos size) (pos offset)
    rest ← pages k (offset + size)
    ok (page ++ rest)

  pages-take :
      (k offset : ℕ)
      → db.reads 0 ≡ true
      → pages k offset ≡ ok (take (k * size) (drop offset (order_by newer_post db.tables.posts)))
  unfolding pages newest_posts
  pages-take zero offset h =
      let none_left : 0 * size ≡ 0 = omega arith in
      ap ok (sym (ap (λ n. take n (drop offset (order_by newer_post db.tables.posts))) none_left))
  pages-take (suc k) offset h =
      let rows = order_by newer_post db.tables.posts in
      rw (limited-pos size offset rows, h, pages-take k (offset + size) h)
        (ap ok (
          ap (λ l. take size (drop offset rows) ++ take (k * size) l)
            (sym (drop-drop size offset (offset + size) rows refl))
          ∙ take-append_drop size (k * size) (suc k * size) (drop offset rows) (suc_mul k size)))

  -- While the database works, the pages of a size, asked for one after another and enough of them
  -- for the number of posts, are together the posts, each once, newest first.
  pub newest_posts-pages :
      (k : ℕ)
      → db.reads 0 ≡ true
      → length db.tables.posts ≤ k * size
      → let rows = order_by newer_post db.tables.posts in
        (pages k 0 ≡ ok rows) × Perm rows db.tables.posts × IsNewestFirst rows
  newest_posts-pages k h enough =
      let rows = order_by newer_post db.tables.posts in
      (
        pages-take k 0 h
            ∙ ap ok (
                take_whole (k * size) rows
                  (omega (arith, length-order_by newer_post db.tables.posts))),
        order_by-perm newer_post db.tables.posts,
        order_by-IsNewestFirst db.tables.posts,
      )
