-- ===== src/Likes/Paging.antt =====
-- Following the cursors of user_worker/src/likes.rs.
use lets_embed.Prelude.{
  ℕ, zero, suc, ◌≤◌, ◌<◌, ◌≡◌, ◌≢◌, refl, sym, ap, ◌∙◌, subst, Bool, true, false, ◌&&◌, some, List,
  [], ◌∷◌, ◌++◌, all, length, take, drop, arith, ltb, if◌then◌else◌, inl, inr, Bool-cases,
}
use lets_embed.Likes.{Like, is_older, filter, insert, newest_first, last_time}

-- No two likes at the same time, in the order of the page.
abbrev pub Descending : List Like → Type 0
Descending [] = Unit
Descending (x ∷ xs) = (all (λ r. ltb r.created_at x.created_at) xs ≡ true) × Descending xs

filter-insert :
    (c : ℕ) (x : Like) (xs : List Like)
    → filter (is_older (some c)) (insert x xs) ≡ (
        if ltb x.created_at c
        then insert x (filter (is_older (some c)) xs)
        else filter (is_older (some c)) xs)
unfolding filter insert
filter-insert c x [] = refl
filter-insert c x (y ∷ ys) = ground (arith, filter-insert c x ys)

pub filter-newest_first :
    (c : ℕ) (p : Like → Bool) (rows : List Like)
    → newest_first (filter (λ r. p r && is_older (some c) r) rows)
      ≡ filter (is_older (some c)) (newest_first (filter p rows))
unfolding filter newest_first
filter-newest_first c p [] = refl
filter-newest_first c p (x ∷ rows) =
    let same = filter-newest_first c p rows in
    let step = filter-insert c x (newest_first (filter p rows)) in
    elim (Bool-cases (p x)) [
      | inr a ↦ rw a same
      | inl a ↦ elim (Bool-cases (ltb x.created_at c)) [
        | inl b ↦ rw (a, b) (ap (insert x) same ∙ sym (step ∙ rw b refl))
        | inr b ↦ rw (a, b) (same ∙ sym (step ∙ rw b refl))
      ]
    ]

-- The rows below the last row of a full page are the rest.
pub last_below :
    (c x : ℕ) (n : ℕ) (xs : List Like)
    → all (λ r. ltb r.created_at x) xs ≡ true
    → last_time (take n xs) ≡ some c
    → c < x
last_below c x zero xs h e = absurd (ground arith)
last_below c x (suc n) [] h e = absurd (ground arith)
last_below c x (suc zero) (y ∷ ys) h e = ground arith
last_below c x (suc (suc n)) (y ∷ []) h e = ground arith
last_below c x (suc (suc n)) (y ∷ z ∷ ys) h e = last_below c x (suc n) (z ∷ ys) (ground arith) e

all_older :
    (x : ℕ) (xs : List Like)
    → all (λ r. ltb r.created_at x) xs ≡ true
    → filter (is_older (some x)) xs ≡ xs
unfolding filter
all_older x [] h = refl
all_older x (y ∷ ys) h = ground (arith, all_older x ys)

pub rest_of_page :
    (c n : ℕ) (xs : List Like)
    → Descending xs
    → last_time (take (suc n) xs) ≡ some c
    → n < length xs
    → filter (is_older (some c)) xs ≡ drop (suc n) xs
unfolding filter
rest_of_page c n [] d e k = absurd (omega arith)
rest_of_page c zero (x ∷ xs) d e k =
    let same : x.created_at ≡ c = ground (arith, e) in
    let first : ltb x.created_at x.created_at ≡ false = ground arith in
    subst (λ b. filter (is_older (some b)) (x ∷ xs) ≡ xs) same
      (rw first (all_older x.created_at xs d.0))
rest_of_page c (suc n) (x ∷ []) d e k = absurd (omega arith)
rest_of_page c (suc n) (x ∷ y ∷ ys) d e k =
    let below : c < x.created_at = last_below c x.created_at (suc n) (y ∷ ys) d.0 e in
    let newer : ltb x.created_at c ≡ false = ground arith in
    rw newer (rest_of_page c n (y ∷ ys) d.1 e (omega arith))

all-filter : (p q : Like → Bool) (xs : List Like) → all q xs ≡ true → all q (filter p xs) ≡ true
unfolding filter
all-filter p q [] h = refl
all-filter p q (x ∷ xs) h = ground (arith, all-filter p q xs)

pub filter-Descending :
    (p : Like → Bool) (xs : List Like) → Descending xs → Descending (filter p xs)
unfolding filter
filter-Descending p [] d = tt
filter-Descending p (x ∷ xs) d = elim (Bool-cases (p x)) [
  | inl e ↦
      rw e (all-filter p (λ r. ltb r.created_at x.created_at) xs d.0, filter-Descending p xs d.1)
  | inr e ↦ rw e (filter-Descending p xs d.1)
]

-- An earlier cursor takes from what a later one leaves.
pub filter-filter :
    (b c : ℕ) (xs : List Like)
    → b ≤ c
    → filter (is_older (some b)) (filter (is_older (some c)) xs) ≡ filter (is_older (some b)) xs
unfolding filter
filter-filter b c [] h = refl
filter-filter b c (x ∷ xs) h = ground (arith, filter-filter b c xs h)

pub take-drop : (n : ℕ) (xs : List Like) → take n xs ++ drop n xs ≡ xs
take-drop zero xs = refl
take-drop (suc n) [] = refl
take-drop (suc n) (x ∷ xs) = ap (λ t. x ∷ t) (take-drop n xs)

-- A page that is not full holds everything.
pub short_page : (n : ℕ) (xs : List Like) → length (take n xs) ≢ n → take n xs ≡ xs
short_page zero xs h = absurd (h refl)
short_page (suc n) [] h = refl
short_page (suc n) (x ∷ xs) h = ap (λ t. x ∷ t) (short_page n xs (λ e. h (ap suc e)))

pub full_page : (n : ℕ) (xs : List Like) → length (take n xs) ≡ n → n ≤ length xs
full_page zero xs h = omega arith
full_page (suc n) [] h = absurd (omega arith)
full_page (suc n) (x ∷ xs) h = omega (arith, full_page n xs (omega arith))

pub last_time-some :
    (n : ℕ) (xs : List Like) → suc n ≤ length xs → (c : ℕ) × (last_time (take (suc n) xs) ≡ some c)
last_time-some n [] h = absurd (omega arith)
last_time-some zero (x ∷ xs) h = (x.created_at, refl)
last_time-some (suc n) (x ∷ []) h = absurd (omega arith)
last_time-some (suc n) (x ∷ y ∷ ys) h = last_time-some n (y ∷ ys) (omega arith)
