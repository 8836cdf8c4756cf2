-- ===== src/SearchEngine/Random/Sampled.antt =====
-- What a page of random ids holds.
use Prim.Native.Nat.{bit_xor}
use lets_embed.Prelude.{
  ℕ, zero, suc, ◌+◌, ◌-◌, ◌%◌, ◌≤◌, ◌<◌, ◌≡◌, refl, ap, ap₂, ◌∙◌, ◌↔◌, Bool, true, false, ◌||◌,
  List, [], ◌∷◌, ◌++◌, any, length, arith, Bool-cases, inl, inr,
}
use lets_embed.Prelude.Int.{ℤ, pos, ◌≤ℤ◌, eq_of_parts}
use lets_embed.Prelude.Words.{i64_max, add_i64, sub_i64, add_i64-pos, sub_i64-pos, of_bits-eq-pos}
use lets_embed.SearchEngine.Random.{
  mix64, to_bits, span_of, id_at, draws, same_id, fresh, range_length, random_ids,
}

same_id_iff : (a b : ℤ) → (same_id a b ≡ true) ↔ (a ≡ b)
same_id_iff a b = ground (arith, eq_of_parts a b)

-- Whether an id is in a list.
abbrev pub has_id : ℤ → List ℤ → Bool
has_id a l = any (same_id a) l

abbrev pub IsDistinct : List ℤ → Type 0
IsDistinct [] = Unit
IsDistinct (x ∷ xs) = (has_id x xs ≡ false) × IsDistinct xs

abbrev pub IsWithin : ℤ → ℤ → List ℤ → Type 0
IsWithin lo hi [] = Unit
IsWithin lo hi (x ∷ xs) = (lo ≤ℤ x) × (x ≤ℤ hi) × IsWithin lo hi xs

-- What was seen does not come again, and nothing else is lost.
fresh-seen : (a : ℤ) (seen xs : List ℤ) → has_id a seen ≡ true → has_id a (fresh seen xs) ≡ false
unfolding fresh
fresh-seen a seen [] h = refl
fresh-seen a seen (x ∷ xs) h = elim (Bool-cases (has_id x seen)) [
  | inl e ↦ rw e (fresh-seen a seen xs h)
  | inr e ↦ elim (Bool-cases (same_id a x)) [
    | inl same ↦ absurd (ground (arith, h, e, (same_id_iff a x).0 same))
    | inr other ↦ rw (e, other) (fresh-seen a (x ∷ seen) xs (rw other h))
  ]
]

fresh-IsDistinct : (seen xs : List ℤ) → IsDistinct (fresh seen xs)
unfolding fresh
fresh-IsDistinct seen [] = tt
fresh-IsDistinct seen (x ∷ xs) = elim (Bool-cases (has_id x seen)) [
  | inl e ↦ rw e (fresh-IsDistinct seen xs)
  | inr e ↦ rw e (
    fresh-seen x (x ∷ seen) xs (rw ((same_id_iff x x).1 refl) refl),
    fresh-IsDistinct (x ∷ seen) xs,
  )
]

has_id-fresh :
    (a : ℤ) (seen xs : List ℤ) → has_id a seen ≡ false → has_id a (fresh seen xs) ≡ has_id a xs
unfolding fresh
has_id-fresh a seen [] h = refl
has_id-fresh a seen (x ∷ xs) h = elim (Bool-cases (has_id x seen)) [
  | inl e ↦ elim (Bool-cases (same_id a x)) [
    | inl same ↦ absurd (ground (arith, h, e, (same_id_iff a x).0 same))
    | inr other ↦ rw (e, other) (has_id-fresh a seen xs h)
  ]
  | inr e ↦ elim (Bool-cases (same_id a x)) [
    | inl same ↦ rw (e, same) refl
    | inr other ↦ rw (e, other) (has_id-fresh a (x ∷ seen) xs (rw other h))
  ]
]

fresh-IsWithin : (lo hi : ℤ) (seen xs : List ℤ) → IsWithin lo hi xs → IsWithin lo hi (fresh seen xs)
unfolding fresh
fresh-IsWithin lo hi seen [] h = tt
fresh-IsWithin lo hi seen (x ∷ xs) h = elim (Bool-cases (has_id x seen)) [
  | inl e ↦ rw e (fresh-IsWithin lo hi seen xs h.2)
  | inr e ↦ rw e (h.0, h.1, fresh-IsWithin lo hi (x ∷ seen) xs h.2)
]

length-fresh : (seen xs : List ℤ) → length (fresh seen xs) ≤ length xs
unfolding fresh
length-fresh seen [] = omega arith
length-fresh seen (x ∷ xs) = elim (Bool-cases (has_id x seen)) [
  | inl e ↦ rw e (omega (arith, length-fresh seen xs))
  | inr e ↦ rw e (omega (arith, length-fresh (x ∷ seen) xs))
]

-- The numbers of rows are natural numbers, with room for their count within i64.
id_at-exact :
    (seed : ℤ) (a b i : ℕ)
    → a ≤ b
    → b < i64_max
    → (x : ℕ) × (id_at seed (pos a) (pos b) i ≡ pos (a + x)) × (x ≤ b - a)
unfolding id_at
id_at-exact seed a b i h k =
    let diff : sub_i64 (pos b) (pos a) ≡ pos (b - a) = sub_i64-pos b a h (omega arith) in
    let span : span_of (pos a) (pos b) ≡ b - a + 1 =
      ap to_bits (ap (λ d. add_i64 d (pos 1)) diff ∙ add_i64-pos (b - a) 1 (omega arith)) in
    let m = mix64 (bit_xor (to_bits seed) (mix64 i)) in
    let x = m % (b - a + 1) in
    let small : x < b - a + 1 = omega arith in
    (x, rw (span, of_bits-eq-pos x (omega arith)) (add_i64-pos a x (omega arith)), omega arith)

draws-IsWithin :
    (seed : ℤ) (a b n i : ℕ)
    → a ≤ b
    → b < i64_max
    → IsWithin (pos a) (pos b) (draws seed (pos a) (pos b) n i)
unfolding draws
draws-IsWithin seed a b zero i h k = tt
draws-IsWithin seed a b (suc n) i h k =
    let (x, e, small) = id_at-exact seed a b i h k in
    rw e (omega arith, omega arith, draws-IsWithin seed a b n (suc i) h k)

length-draws : (seed lo hi : ℤ) (n i : ℕ) → length (draws seed lo hi n i) ≡ n
unfolding draws
length-draws seed lo hi zero i = refl
length-draws seed lo hi (suc n) i = ap suc (length-draws seed lo hi n (suc i))

draws-append :
    (seed lo hi : ℤ) (n m c i j : ℕ)
    → c ≡ n + m
    → j ≡ i + n
    → draws seed lo hi c i ≡ draws seed lo hi n i ++ draws seed lo hi m j
unfolding draws
draws-append seed lo hi zero m c i j h k = ap₂ (draws seed lo hi) (omega arith) (omega arith)
draws-append seed lo hi (suc n) m zero i j h k = absurd (omega arith)
draws-append seed lo hi (suc n) m (suc c) i j h k =
    ap (λ l. id_at seed lo hi i ∷ l)
      (draws-append seed lo hi n m c (suc i) j (omega arith) (omega arith))

has_id-append : (a : ℤ) (l m : List ℤ) → has_id a (l ++ m) ≡ (has_id a l || has_id a m)
has_id-append a [] m = refl
has_id-append a (x ∷ l) m = ground (arith, has_id-append a l m)

-- What holds of every page of `random_ids`.
pub record IsSample (lo hi : ℤ) (limit : ℕ) (ids : List ℤ) : Type 0 where
  pub distinct : IsDistinct ids
  pub within : IsWithin lo hi ids
  pub at_most : length ids ≤ limit

-- For bounds that are not negative, whose lower one is at most the upper one, which is below
-- i64::MAX, a page of random ids has no id twice, ids between the bounds only, and at most as many
-- as the limit.
pub random_ids-IsSample :
    (seed : ℤ) (a b limit offset : ℕ)
    → a ≤ b
    → b < i64_max
    → IsSample (pos a) (pos b) limit (random_ids seed (pos a) (pos b) limit offset)
unfolding random_ids
random_ids-IsSample seed a b limit offset h k =
    let n = range_length limit offset in
    let ids = draws seed (pos a) (pos b) n offset in
    let short : n ≤ limit = ground arith in
    record {
      distinct = fresh-IsDistinct [] ids;
      within = fresh-IsWithin (pos a) (pos b) [] ids (draws-IsWithin seed a b n offset h k);
      at_most =
          omega (arith, length-fresh [] ids, length-draws seed (pos a) (pos b) n offset, short);
    }

has_id-random_ids :
    (seed lo hi x : ℤ) (limit offset : ℕ)
    → has_id x (random_ids seed lo hi limit offset)
      ≡ has_id x (draws seed lo hi (range_length limit offset) offset)
unfolding random_ids
has_id-random_ids seed lo hi x limit offset = has_id-fresh x [] _ refl

-- x
pub random_ids_pages :
    (seed lo hi x : ℤ) (n m offset : ℕ)
    → offset + n + m ≤ i64_max
    → has_id x (random_ids seed lo hi (n + m) offset) ≡ (
        has_id x (random_ids seed lo hi n offset)
        || has_id x (random_ids seed lo hi m (offset + n)))
random_ids_pages seed lo hi x n m offset h =
    let whole : range_length (n + m) offset ≡ n + m = ground arith in
    let first : range_length n offset ≡ n = ground arith in
    let second : range_length m (offset + n) ≡ m = ground arith in
    rw
      (
        has_id-random_ids seed lo hi x (n + m) offset,
        has_id-random_ids seed lo hi x n offset,
        has_id-random_ids seed lo hi x m (offset + n),
        whole,
        first,
        second,
        draws-append seed lo hi n m (n + m) offset (offset + n) refl refl,
      )
      (has_id-append x (draws seed lo hi n offset) (draws seed lo hi m (offset + n)))
