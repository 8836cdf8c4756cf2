-- ===== src/Likes/Handlers.antt =====
-- The handlers of user_worker/src/likes.rs, over the table of likes.
use lets_embed.Prelude.{
  ℕ, Bool, true, false, not, ◌&&◌, ◌||◌, Option, none, some, List, ◌∷◌, any, if◌then◌else◌,
}
use mathlib.Core.Option
use lets_embed.Prelude.Int.{ℤ, eq_ℤ}
use lets_embed.Prelude.Float.{as_f64, nat_f64}
use lets_embed.Prelude.Text.{Str, codes, str_eq}
use lets_embed.Session.{Codec, session_address}
use lets_embed.Likes.{Like, filter, page_limit, select, page_cursor}

-- `LikeReq`, which has the fields of `LikeQuery`.
pub record LikeReq : Type 0 where
  pub kind : Str
  pub target_id : ℤ

pub record LikesQuery : Type 0 where
  pub kind : Option Str
  pub limit : Option ℕ
  pub cursor : Option ℕ

pub data Reply : Type 0 where
  failed : ℕ → Str → Reply
  liked_reply : Bool → Reply
  likes_reply : List Like → Option ℕ → Reply

-- What a request meets: its session, the clock, and whether the statement is carried out.
pub record Trip : Type 0 where
  pub lib : Codec
  pub decode58 : Str → Option (List ℕ)
  pub jwt_secret : Str
  pub cookie : Option Str
  pub now : ℕ
  pub db_ok : Bool

-- `valid_like_kind`.
unfoldable pub valid_like_kind : Str → Bool
valid_like_kind kind =
    str_eq kind (codes "post") || str_eq kind (codes "image") || str_eq kind (codes "video")

-- The row of a user's like: ids are bound `as f64`.
abbrev pub is_row : Str → LikeReq → Like → Bool
is_row address req row =
    str_eq row.address address
    && str_eq row.kind req.kind
    && eq_ℤ row.target_id (as_f64 req.target_id)

abbrev pub is_liked : Str → LikeReq → List Like → Bool
is_liked address req table = any (is_row address req) table

-- `INSERT OR IGNORE`, and `DELETE`.
unfoldable pub insert_or_ignore : Str → LikeReq → ℕ → List Like → List Like
insert_or_ignore address req now table =
    if is_liked address req table
    then table
    else record {
      address = address;
      kind = req.kind;
      target_id = as_f64 req.target_id;
      created_at = nat_f64 now;
    }
      ∷ table

unfoldable pub delete_row : Str → LikeReq → List Like → List Like
delete_row address req table = filter (λ row. not (is_row address req row)) table

-- `auth`, `check_kind` and the failure of the statement, around what a handler does.
unfoldable pub checked :
    Trip → Option Str → List Like → (Str → Reply × List Like) → Reply × List Like
checked trip kind table next =
    elim (session_address trip.decode58 trip.lib trip.cookie trip.jwt_secret trip.now) [
      | none ↦ (failed 401 (codes "not signed in"), table)
      | some address ↦
          if not (elim kind [ none ↦ true | some k ↦ valid_like_kind k ])
          then (failed 400 (codes "invalid kind"), table)
          else if not trip.db_ok
          then (failed 500 (codes "database error"), table)
          else next address
    ]

unfoldable pub like : Trip → LikeReq → List Like → Reply × List Like
like trip req table =
    checked trip (some req.kind) table
      (λ address. (liked_reply true, insert_or_ignore address req trip.now table))

unfoldable pub unlike : Trip → LikeReq → List Like → Reply × List Like
unlike trip req table =
    checked trip (some req.kind) table
      (λ address. (liked_reply false, delete_row address req table))

unfoldable pub liked : Trip → LikeReq → List Like → Reply × List Like
liked trip req table =
    checked trip (some req.kind) table
      (λ address. (liked_reply (is_liked address req table), table))

unfoldable pub list : Trip → LikesQuery → List Like → Reply × List Like
list trip q table = checked trip q.kind table (λ address.
    let items = select address q.kind (Option.map nat_f64 q.cursor) (page_limit q.limit) table in
    (likes_reply items (page_cursor items (page_limit q.limit)), table))
