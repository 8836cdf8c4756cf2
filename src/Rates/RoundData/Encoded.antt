-- ===== src/Rates/RoundData/Encoded.antt =====
-- The ABI encoding of `latestRoundData()`: five words of 64 hexadecimal digits, and what
-- `decode_latest_round_data` (user_worker/src/rates.rs) makes of any such words.
use native.Mathlib.Nat.{mod-lt}
use lets_embed.Prelude.{
  ℕ, ◌+◌, ◌-◌, ◌/◌, ◌%◌, ◌^◌, ◌<◌, ◌≡◌, refl, ap, ◌∙◌, true, not, some, ◌++◌, length, take, drop,
  all, take-append, drop-append, all-append, length-append, drop_past, ltb, leb, ◌==◌, arith,
  if◌then◌else◌,
}
use lets_embed.Prelude.Text.{Str, codes, strip_prefix}
use lets_embed.Prelude.Hex.{is_hex_digit}
use lets_embed.Config
use lets_embed.Prelude.Hex.Print.{
  to_digit-hex_char, to_hex, to_hex-add, length-to_hex, all-to_hex, any_nonzero,
  from_str_radix_16-to_hex,
}
use lets_embed.Prelude.Results.{Result, ok, err, ok_or, guard, ◌>>=◌, ◌>>◌}
use lets_embed.Prelude.Words.{u64_mod, u128_mod}
use lets_embed.Rates.RoundData.{
  first_digit, word_to_u128, word, decode_words, decode_latest_round_data,
}

-- A word is a number below 2 ^ 256; it is read if it fits into `u128`.
abbrev pub narrow : ℕ → Result ℕ
narrow a = if ltb a u128_mod then ok a else err (codes "word exceeds u128")

word_halves : (a : ℕ) → to_hex 64 a ≡ to_hex 32 (a / u128_mod) ++ to_hex 32 a
word_halves a = to_hex-add 32 32 a

narrowed :
    (q a : ℕ)
    → q ≡ a / u128_mod
    → q < u128_mod
    → (if not (q % 16 ^ 32 == 0)
        then err (codes "word exceeds u128")
        else ok_or (some (a % 16 ^ 32)) (codes "bad hex word"))
      ≡ narrow a
narrowed q a h small = ground arith

pub word_to_u128-to_hex : (a : ℕ) → a < 2 ^ 256 → word_to_u128 (to_hex 64 a) ≡ narrow a
unfolding word_to_u128
word_to_u128-to_hex a h =
    rw
      (
        word_halves a,
        take-append 32 (to_hex 32 (a / u128_mod)) (to_hex 32 a) (length-to_hex 32 (a / u128_mod)),
        drop-append 32 (to_hex 32 (a / u128_mod)) (to_hex 32 a) (length-to_hex 32 (a / u128_mod)),
        any_nonzero 32 (a / u128_mod),
        from_str_radix_16-to_hex 31 a (mod-lt a (omega arith)),
      )
      (narrowed (a / u128_mod) a (omega arith) (omega arith))

top_digit : (a : ℕ) → first_digit (to_hex 64 a) ≡ some (a / 16 ^ 63 % 16)
unfolding to_hex
top_digit a = to_digit-hex_char (a / 16 ^ 63 % 16) (mod-lt (a / 16 ^ 63) (omega arith))

-- The five words as the node sends them.
unfoldable words : ℕ → ℕ → ℕ → ℕ → ℕ → Str
words r a st u i = to_hex 64 r ++ (to_hex 64 a ++ (to_hex 64 st ++ (to_hex 64 u ++ to_hex 64 i)))

unfoldable pub round_data : ℕ → ℕ → ℕ → ℕ → ℕ → Str
unfolding words
round_data r a st u i = codes "0x" ++ words r a st u i

-- What the source promises of an answer `a` as a two's-complement word and its time `u`.
unfoldable pub price_of_round : ℕ → ℕ → ℕ → Result ℕ
price_of_round a u now =
    if leb (2 ^ 255) a
    then err (codes "chainlink answer is negative")
    else if leb u128_mod a
    then err (codes "word exceeds u128")
    else if a == 0
    then err (codes "chainlink answer is zero")
    else if leb u128_mod u
    then err (codes "word exceeds u128")
    else if leb u64_mod u
    then err (codes "updatedAt exceeds u64")
    else if ltb (u + Config.chainlink_max_stale_secs) now
    then err (codes "chainlink price is stale")
    else ok a

length-words : (r a st u i : ℕ) → length (words r a st u i) ≡ 320
unfolding words
length-words r a st u i =
    rw
      (
        length-append (to_hex 64 r) (to_hex 64 a ++ (to_hex 64 st ++ (to_hex 64 u ++ to_hex 64 i))),
        length-append (to_hex 64 a) (to_hex 64 st ++ (to_hex 64 u ++ to_hex 64 i)),
        length-append (to_hex 64 st) (to_hex 64 u ++ to_hex 64 i),
        length-append (to_hex 64 u) (to_hex 64 i),
        length-to_hex 64 r,
        length-to_hex 64 a,
        length-to_hex 64 st,
        length-to_hex 64 u,
        length-to_hex 64 i,
      )
      refl

hex-append :
    (n : ℕ) (s : Str) → all is_hex_digit s ≡ true → all is_hex_digit (to_hex 64 n ++ s) ≡ true
hex-append n s h = all-append is_hex_digit (to_hex 64 n) s (all-to_hex 64 n) h

words-hex : (r a st u i : ℕ) → all is_hex_digit (words r a st u i) ≡ true
unfolding words
words-hex r a st u i =
    hex-append r _ (hex-append a _ (hex-append st _ (hex-append u _ (all-to_hex 64 i))))

-- Words before the one looked for.
drop_word : (n k : ℕ) (s : Str) → drop (64 + k) (to_hex 64 n ++ s) ≡ drop k s
drop_word n k s = drop_past 64 k (to_hex 64 n) s (length-to_hex 64 n)

take_word : (n : ℕ) (s : Str) → take 64 (to_hex 64 n ++ s) ≡ to_hex 64 n
take_word n s = take-append 64 (to_hex 64 n) s (length-to_hex 64 n)

word-1 : (r a st u i : ℕ) → word (words r a st u i) 1 ≡ to_hex 64 a
unfolding words
word-1 r a st u i = ap (take 64) (drop_word r 0 _) ∙ take_word a _

word-3 : (r a st u i : ℕ) → word (words r a st u i) 3 ≡ to_hex 64 u
unfolding words
word-3 r a st u i =
    ap (take 64) (drop_word r 128 _ ∙ drop_word a 64 _ ∙ drop_word st 0 _) ∙ take_word u _

prefix : (s : Str) → strip_prefix (codes "0x") (codes "0x" ++ s) ≡ some s
unfolding strip_prefix
prefix s = refl

-- The guards of the source one after another are the cases of `price_of_round`.
decided :
    (a u now top : ℕ)
    → a < 2 ^ 256
    → u < 2 ^ 256
    → top ≡ a / 16 ^ 63 % 16
    → (do
      guard (ltb top 8) (codes "chainlink answer is negative")
      answer ← narrow a
      guard (not (answer == 0)) (codes "chainlink answer is zero")
      updated_at ← narrow u
      guard (ltb updated_at u64_mod) (codes "updatedAt exceeds u64")
      guard
          (leb (now - updated_at) Config.chainlink_max_stale_secs)
          (codes "chainlink price is stale")
      ok answer)
      ≡ price_of_round a u now
unfolding price_of_round
decided a u now top h k e = ground arith

-- For any five words whose answer and time are below 2^256, the decoder returns what the
-- specification says: the price, or the first reason to refuse it (negative, too large, zero, a
-- time past u64, stale).
pub decode_latest_round_data-round_data :
    (r a st u i now : ℕ)
    → a < 2 ^ 256
    → u < 2 ^ 256
    → decode_latest_round_data (round_data r a st u i) now ≡ price_of_round a u now
unfolding decode_latest_round_data round_data decode_words
decode_latest_round_data-round_data r a st u i now h k =
    rw
      (
        prefix (words r a st u i),
        length-words r a st u i,
        words-hex r a st u i,
        word-1 r a st u i,
        word-3 r a st u i,
        top_digit a,
        word_to_u128-to_hex a h,
        word_to_u128-to_hex u k,
      )
      (decided a u now (a / 16 ^ 63 % 16) h k refl)
