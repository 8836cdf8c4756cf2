-- ===== src/Likes/Walk.antt =====
-- A client that follows the cursors of user_worker/src/likes.rs to the end.
use lets_embed.Prelude.{
  ℕ, zero, suc, ◌<◌, ◌≡◌, refl, sym, ap, ◌∙◌, Bool, true, false, ◌&&◌, Option, none, some, List, [],
  ◌∷◌, ◌++◌, all, length, take, drop, arith, ltb, ◌==◌, inl, inr, Bool-cases, length-drop,
}
use lets_embed.Prelude.Text.{Str}
use lets_embed.Likes.{
  Like, is_mine, is_older, filter, newest_first, select, last_time, page_cursor, walk,
}
use lets_embed.Likes.Paging.{
  Descending, filter-newest_first, last_below, rest_of_page, filter-Descending, filter-filter,
  take-drop, short_page, full_page, last_time-some,
}

filter_all : (xs : List Like) → filter (is_older none) xs ≡ xs
unfolding filter
filter_all [] = refl
filter_all (x ∷ xs) = ap (λ t. x ∷ t) (filter_all xs)

filter_no_cursor :
    (p : Like → Bool) (xs : List Like) → filter (λ r. p r && is_older none r) xs ≡ filter p xs
unfolding filter
filter_no_cursor p [] = refl
filter_no_cursor p (x ∷ xs) = ground (arith, filter_no_cursor p xs)

all_filtered :
    (b : ℕ) (xs : List Like) → all (λ r. ltb r.created_at b) (filter (is_older (some b)) xs) ≡ true
unfolding filter
all_filtered b [] = refl
all_filtered b (x ∷ xs) = ground (arith, all_filtered b xs)

-- The likes of the user, of the kind that is asked for.
abbrev pub likes_of : Str → Option Str → List Like → List Like
likes_of address kind table = newest_first (filter (is_mine address kind) table)

module _ (address : Str) (kind : Option Str) (m : ℕ) (table : List Like) where
  abbrev mine : List Like
  mine = likes_of address kind table

  -- Those that a cursor leaves.
  abbrev left : Option ℕ → List Like
  left o = filter (is_older o) mine

  select_lem : (o : Option ℕ) → select address kind o (suc m) table ≡ take (suc m) (left o)
  unfolding select
  select_lem none =
      ap (λ xs. take (suc m) (newest_first xs)) (filter_no_cursor (is_mine address kind) table)
      ∙ ap (take (suc m)) (sym (filter_all mine))
  select_lem (some c) = ap (take (suc m)) (filter-newest_first c (is_mine address kind) table)

  left_after :
      (o : Option ℕ) (c : ℕ)
      → last_time (take (suc m) (left o)) ≡ some c
      → left (some c) ≡ filter (is_older (some c)) (left o)
  left_after none c e = ap (filter (is_older (some c))) (sym (filter_all mine))
  left_after (some b) c e = sym (
      filter-filter c b mine
        (omega (arith, last_below c b (suc m) (left (some b)) (all_filtered b mine) e)))

  full_cursor :
      (o : Option ℕ) (c : ℕ)
      → (length (take (suc m) (left o)) == suc m) ≡ true
      → last_time (take (suc m) (left o)) ≡ some c
      → page_cursor (select address kind o (suc m) table) (suc m) ≡ some c
  unfolding page_cursor
  full_cursor o c e l = rw (select_lem o, e) l

  short_cursor :
      (o : Option ℕ)
      → (length (take (suc m) (left o)) == suc m) ≡ false
      → page_cursor (select address kind o (suc m) table) (suc m) ≡ none
  unfolding page_cursor
  short_cursor o e = rw (select_lem o, e) refl

  walk-left :
      (fuel : ℕ) (o : Option ℕ)
      → Descending mine
      → length (left o) < fuel
      → walk fuel address kind (suc m) table o ≡ some (left o)
  unfolding walk
  walk-left zero o d k = absurd (omega arith)
  walk-left (suc fuel) o d k =
      let items = take (suc m) (left o) in
      elim (Bool-cases (length items == suc m)) [
        | inr e ↦
            let all_of_it = short_page (suc m) (left o) (λ q. ground (arith, e, q)) in
            rw (short_cursor o e, walk) (ap some (select_lem o ∙ all_of_it))
        | inl e ↦
            let size = full_page (suc m) (left o) (ground (arith, e)) in
            let (c, l) = last_time-some m (left o) size in
            let next : left (some c) ≡ drop (suc m) (left o) =
              left_after o c l
              ∙ rest_of_page c m (left o) (filter-Descending (is_older o) mine d) l (omega arith) in
            let shorter : length (left (some c)) < fuel =
              omega (arith, ap length next, length-drop (suc m) (left o)) in
            rw (full_cursor o c e l, walk, walk-left fuel (some c) d shorter)
              (ap some (
                ap (λ t. t ++ left (some c)) (select_lem o)
                ∙ ap (λ t. items ++ t) next
                ∙ take-drop (suc m) (left o)))
      ]

-- For a page of at least one row, if no two likes of the user, of the kind that is asked for, are
-- of the same time, a client that follows the cursors from the first page comes to an end after at
-- most one page more than there are likes, and the pages are all of the likes, newest first, each
-- once.
pub walk-eq-likes_of :
    (address : Str) (kind : Option Str) (m : ℕ) (table : List Like)
    → Descending (likes_of address kind table)
    → walk (suc (length (likes_of address kind table))) address kind (suc m) table none
      ≡ some (likes_of address kind table)
walk-eq-likes_of address kind m table d =
    let whole = filter_all (likes_of address kind table) in
    walk-left address kind m table (suc (length (likes_of address kind table))) none d
      (omega (arith, ap length whole))
    ∙ ap some whole
