-- ===== src/Likes/Refined.antt =====
-- The table of user_worker/src/likes.rs as the set of what each user likes.
use lets_embed.Prelude.{
  ℕ, ◌≡◌, refl, sym, ap, ◌∙◌, Bool, true, false, not, ◌&&◌, ◌||◌, some, List, [], ◌∷◌, arith, ap₂,
  ◌<◌, inl, inr, Bool-cases,
}
use lets_embed.Prelude.Int.{ℤ, pos_part, neg_part, eq_ℤ, eq_of_eq_ℤ}
use lets_embed.Prelude.Float.{as_f64, exact_ids, as_f64_lem}
use lets_embed.Prelude.Text.{Str, str_eq, str_eq_iff}
use lets_embed.Likes.{Like, filter}
use lets_embed.Likes.Handlers.{
  LikeReq, Trip, Reply, liked_reply, is_row, is_liked, insert_or_ignore, delete_row,
  valid_like_kind, checked, like, unlike, liked,
}
use lets_embed.Session.{session_address}

-- Whether two likes are the same one.
abbrev pub is_same_like : Str → LikeReq → Str → LikeReq → Bool
is_same_like a req b other =
    str_eq a b && str_eq req.kind other.kind && eq_ℤ req.target_id other.target_id

-- An id that `as f64` keeps: less than 2^53 away from 0.
abbrev pub IsKept : ℤ → Type 0
IsKept id = (pos_part id < exact_ids) × (neg_part id < exact_ids)

-- Whether two likes are of one row, by the ids as they are bound.
abbrev is_same_row : Str → LikeReq → Str → LikeReq → Bool
is_same_row a req b other =
    str_eq a b && str_eq req.kind other.kind && eq_ℤ (as_f64 req.target_id) (as_f64 other.target_id)

is_same_row-eq-is_same_like :
    (a b : Str) (req other : LikeReq)
    → IsKept req.target_id
    → IsKept other.target_id
    → is_same_row a req b other ≡ is_same_like a req b other
is_same_row-eq-is_same_like a b req other (p, n) (q, m) =
    ap₂ (λ x y. str_eq a b && str_eq req.kind other.kind && eq_ℤ x y) (as_f64_lem req.target_id p n)
      (as_f64_lem other.target_id q m)

-- Equal keys find the same rows.
row_same :
    (a b : Str) (req other : LikeReq) (row : Like)
    → is_same_row a req b other ≡ true
    → is_row b other row ≡ is_row a req row
row_same a b req other row h =
    let users : a ≡ b = (str_eq_iff a b).0 (ground (arith, h)) in
    let kinds : req.kind ≡ other.kind = (str_eq_iff req.kind other.kind).0 (ground (arith, h)) in
    let targets : as_f64 req.target_id ≡ as_f64 other.target_id =
      eq_of_eq_ℤ (as_f64 req.target_id) (as_f64 other.target_id) (ground (arith, h)) in
    sym (
      ap
        (λ x.
          str_eq row.address x
          && str_eq row.kind req.kind
          && eq_ℤ row.target_id (as_f64 req.target_id))
        users
      ∙ ap
          (λ x.
            str_eq row.address b && str_eq row.kind x && eq_ℤ row.target_id (as_f64 req.target_id))
          kinds
      ∙ ap (λ x. str_eq row.address b && str_eq row.kind other.kind && eq_ℤ row.target_id x)
          targets)

-- A row is of the key that it is of.
same_row :
    (a b : Str) (req other : LikeReq) (row : Like)
    → is_row a req row ≡ true
    → is_row b other row ≡ is_same_row a req b other
same_row a b req other row h =
    let users : row.address ≡ a = (str_eq_iff row.address a).0 (ground (arith, h)) in
    let kinds : row.kind ≡ req.kind = (str_eq_iff row.kind req.kind).0 (ground (arith, h)) in
    let targets : row.target_id ≡ as_f64 req.target_id =
      eq_of_eq_ℤ row.target_id (as_f64 req.target_id) (ground (arith, h)) in
    ap
      (λ x. str_eq x b && str_eq row.kind other.kind && eq_ℤ row.target_id (as_f64 other.target_id))
      users
    ∙ ap (λ x. str_eq a b && str_eq x other.kind && eq_ℤ row.target_id (as_f64 other.target_id))
        kinds
    ∙ ap (λ x. str_eq a b && str_eq req.kind other.kind && eq_ℤ x (as_f64 other.target_id)) targets

liked_same :
    (a b : Str) (req other : LikeReq) (table : List Like)
    → is_same_row a req b other ≡ true
    → is_liked b other table ≡ is_liked a req table
liked_same a b req other [] h = refl
liked_same a b req other (row ∷ table) h =
    rw (row_same a b req other row h, liked_same a b req other table h) refl

is_liked-insert_or_ignore :
    (a b : Str) (req other : LikeReq) (now : ℕ) (table : List Like)
    → is_liked b other (insert_or_ignore a req now table)
      ≡ (is_same_row a req b other || is_liked b other table)
unfolding insert_or_ignore
is_liked-insert_or_ignore a b req other now table = elim (Bool-cases (is_liked a req table)) [
  | inr e ↦ rw e refl
  | inl e ↦ elim (Bool-cases (is_same_row a req b other)) [
    | inl s ↦ rw (e, s) (liked_same a b req other table s ∙ e)
    | inr s ↦ rw (e, s) refl
  ]
]

is_liked-delete_row :
    (a b : Str) (req other : LikeReq) (table : List Like)
    → is_liked b other (delete_row a req table)
      ≡ (not (is_same_row a req b other) && is_liked b other table)
unfolding delete_row filter
is_liked-delete_row a b req other [] = ground arith
is_liked-delete_row a b req other (row ∷ table) =
    let rest = is_liked-delete_row a b req other table in
    elim (Bool-cases (is_row a req row)) [
      | inl e ↦ rw (e, same_row a b req other row e) (rest ∙ ground arith)
      | inr e ↦ elim (Bool-cases (is_same_row a req b other)) [
        | inl s ↦ rw (e, s, row_same a b req other row s) (rw e (rest ∙ rw s refl))
        | inr s ↦ rw (e, rest, s) refl
      ]
    ]

module _ (trip : Trip) (req : LikeReq) (table : List Like) (a : Str)
    (session : session_address trip.decode58 trip.lib trip.cookie trip.jwt_secret trip.now ≡ some a)
    (valid : valid_like_kind req.kind ≡ true) (works : trip.db_ok ≡ true) where
  checked_lem : (next : Str → Reply × List Like) → checked trip (some req.kind) table next ≡ next a
  unfolding checked
  checked_lem next = rw (session, checked, valid, works) refl

  -- For a signed-in user, a valid kind and ids less than 2^53 away from 0, which `as f64` keeps,
  -- while the database works, `like` answers true and adds the like to the set of what users like,
  -- and nothing else, `unlike` answers false and takes it out, and nothing else, and `liked`
  -- answers whether it is in the set and changes nothing.
  pub likes_refined :
      (b : Str) (other : LikeReq)
      → IsKept req.target_id
      → IsKept other.target_id
      → ((like trip req table).0 ≡ liked_reply true)
        × (is_liked b other (like trip req table).1
            ≡ (is_same_like a req b other || is_liked b other table))
        × ((unlike trip req table).0 ≡ liked_reply false)
        × (is_liked b other (unlike trip req table).1
            ≡ (not (is_same_like a req b other) && is_liked b other table))
        × (liked trip req table ≡ (liked_reply (is_liked a req table), table))
  unfolding like unlike liked
  likes_refined b other kept kept' =
      let same = is_same_row-eq-is_same_like a b req other kept kept' in
      (
        ap (λ x. x.0) (checked_lem _),
        ap (λ x. is_liked b other x.1) (checked_lem _)
            ∙ is_liked-insert_or_ignore a b req other trip.now table
            ∙ ap (λ x. x || is_liked b other table) same,
        ap (λ x. x.0) (checked_lem _),
        ap (λ x. is_liked b other x.1) (checked_lem _)
            ∙ is_liked-delete_row a b req other table
            ∙ ap (λ x. not x && is_liked b other table) same,
        checked_lem _,
      )
