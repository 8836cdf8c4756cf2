-- ===== src/Likes.antt =====
-- Likes, user_worker/src/likes.rs: here the statement that `list` makes, and the cursor of
-- the next page. A time is in ℕ, as `like` writes it, and below 2^53, where `as f64` loses nothing; a
-- cursor below zero, which no page gives, is
-- left out.
pub mod Paging
pub mod Walk
pub mod Handlers
pub mod Refined
mod Tests
use lets_embed.Prelude.{
  ℕ, zero, suc, Bool, true, false, ◌&&◌, Option, none, some, unwrap_or, List, [], ◌∷◌, ◌++◌, length,
  take, ltb, ◌==◌, if◌then◌else◌,
}
use lets_embed.Prelude.Int.{ℤ}
use lets_embed.Prelude.Text.{Str, str_eq}

-- A row of the table `likes`.
pub record Like : Type 0 where
  pub address : Str
  pub kind : Str
  pub target_id : ℤ
  pub created_at : ℕ

-- `q.limit.unwrap_or(50).clamp(1, 100)`.
abbrev clamp : ℕ → ℕ → ℕ → ℕ
clamp lo hi n = if ltb n lo then lo else if ltb hi n then hi else n

unfoldable pub page_limit : Option ℕ → ℕ
page_limit limit = clamp 1 100 (unwrap_or limit 50)

-- The conditions of the statement.
abbrev of_kind : Option Str → Like → Bool
of_kind none row = true
of_kind (some kind) row = str_eq row.kind kind

abbrev pub is_mine : Str → Option Str → Like → Bool
is_mine address kind row = str_eq row.address address && of_kind kind row

abbrev pub is_older : Option ℕ → Like → Bool
is_older none row = true
is_older (some cursor) row = ltb row.created_at cursor

unfoldable pub filter : (Like → Bool) → List Like → List Like
filter p [] = []
filter p (row ∷ rows) = let rest = filter p rows in if p row then row ∷ rest else rest

-- `ORDER BY created_at DESC`.
unfoldable pub insert : Like → List Like → List Like
insert row [] = row ∷ []
insert row (x ∷ xs) =
    let later = insert row xs in if ltb x.created_at row.created_at then row ∷ x ∷ xs else x ∷ later

unfoldable pub newest_first : List Like → List Like
newest_first [] = []
newest_first (row ∷ rows) = insert row (newest_first rows)

-- The rows of a page.
unfoldable pub select : Str → Option Str → Option ℕ → ℕ → List Like → List Like
select address kind cursor limit table =
    take limit
      (newest_first (filter (λ row. is_mine address kind row && is_older cursor row) table))

abbrev pub last_time : List Like → Option ℕ
last_time [] = none
last_time (row ∷ []) = some row.created_at
last_time (row ∷ x ∷ xs) = last_time (x ∷ xs)

-- `page_cursor`.
unfoldable pub page_cursor : List Like → ℕ → Option ℕ
page_cursor items limit = if length items == limit then last_time items else none

-- A client that follows the cursors and joins the pages; `none` if it has to give up.
unfoldable pub walk : ℕ → Str → Option Str → ℕ → List Like → Option ℕ → Option (List Like)
walk zero address kind limit table cursor = none
walk (suc fuel) address kind limit table cursor =
    let items = select address kind cursor limit table in
    elim (page_cursor items limit) [
      | none ↦ some items
      | some next ↦ elim (walk fuel address kind limit table (some next)) [
        | none ↦ none
        | some rest ↦ some (items ++ rest)
      ]
    ]
