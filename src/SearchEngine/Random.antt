-- ===== src/SearchEngine/Random.antt =====
-- `mix64` and `random_ids` of search_engine/src/lib.rs: the random sample that a seed stands for.
pub mod Sampled
use Prim.Native.Nat.{bit_xor}
use lets_embed.Prelude.{
  ℕ, zero, suc, ◌+◌, ◌-◌, ◌*◌, ◌/◌, ◌%◌, ◌^◌, Bool, true, false, List, [], ◌∷◌, any, ltb,
  if◌then◌else◌,
}
use lets_embed.Prelude.Int.{ℤ, pos, negsuc, pos_part, neg_part, leb_ℤ}
use lets_embed.Prelude.Words.{u64_mod, i64_max, mul_u64, of_bits, add_i64, sub_i64}

-- `z >> n` of an unsigned number.
abbrev shift_right : ℕ → ℕ → ℕ
shift_right z n = z / 2 ^ n

-- The finalizer of splitmix64.
unfoldable pub mix64 : ℕ → ℕ
mix64 z0 =
    let z1 = mul_u64 (bit_xor z0 (shift_right z0 30)) 0xbf58476d1ce4e5b9 in
    let z2 = mul_u64 (bit_xor z1 (shift_right z1 27)) 0x94d049bb133111eb in
    bit_xor z2 (shift_right z2 31)

-- `x as u64` of an i64.
abbrev pub to_bits : ℤ → ℕ
to_bits (pos n) = n
to_bits (negsuc n) = u64_mod - suc n

abbrev pub span_of : ℤ → ℤ → ℕ
span_of lo hi = to_bits (add_i64 (sub_i64 hi lo) (pos 1))

-- The id at one index of the sequence.
unfoldable pub id_at : ℤ → ℤ → ℤ → ℕ → ℤ
id_at seed lo hi i = add_i64 lo (of_bits (mix64 (bit_xor (to_bits seed) (mix64 i)) % span_of lo hi))

-- The ids at `count` indices from `i` on.
unfoldable pub draws : ℤ → ℤ → ℤ → ℕ → ℕ → List ℤ
draws seed lo hi zero i = []
draws seed lo hi (suc count) i = id_at seed lo hi i ∷ draws seed lo hi count (suc i)

abbrev pub same_id : ℤ → ℤ → Bool
same_id a b = if leb_ℤ a b then leb_ℤ b a else false

-- The ids that the set `seen` takes in, in order.
unfoldable pub fresh : List ℤ → List ℤ → List ℤ
fresh seen [] = []
fresh seen (x ∷ xs) =
    let rest = fresh (x ∷ seen) xs in if any (same_id x) seen then fresh seen xs else x ∷ rest

-- `offset.saturating_add(limit) - offset`, the length of the range.
abbrev pub range_length : ℕ → ℕ → ℕ
range_length limit offset =
    (if ltb i64_max (offset + limit) then i64_max else offset + limit) - offset

-- `random_ids`, for a limit and an offset that are not negative.
unfoldable pub random_ids : ℤ → ℤ → ℤ → ℕ → ℕ → List ℤ
random_ids seed lo hi limit offset = fresh [] (draws seed lo hi (range_length limit offset) offset)
