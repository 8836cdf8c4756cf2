-- ===== src/Rates/RoundData.antt =====
-- The decoding of Chainlink's `latestRoundData()` (user_worker/src/rates.rs).
pub mod Encoded
use lets_embed.Prelude.{
  ℕ, ◌-◌, ◌*◌, Bool, true, false, not, ◌&&◌, ◌||◌, Option, none, some, List, [], ◌∷◌, length, take,
  drop, all, any, ltb, leb, ◌==◌, if◌then◌else◌,
}
use lets_embed.Prelude.Text.{Str, codes, strip_prefix}
use lets_embed.Prelude.Hex.{to_digit, is_hex_digit, from_str_radix_16}
use lets_embed.Prelude.Results.{Result, ok, err, ok_or, guard, ◌>>=◌, ◌>>◌}
use lets_embed.Prelude.Words.{u64_mod}
use lets_embed.Config

-- The first half of a word must be zeros; every word has 64 digits, so the split never panics.
unfoldable pub word_to_u128 : Str → Result ℕ
word_to_u128 word =
    if any (λ b. not (b == b'0')) (take 32 word)
    then err (codes "word exceeds u128")
    else ok_or (from_str_radix_16 (drop 32 word)) (codes "bad hex word")

abbrev pub first_digit : Str → Option ℕ
first_digit [] = none
first_digit (c ∷ s) = to_digit c

abbrev pub word : Str → ℕ → Str
word hex i = take 64 (drop (i * 64) hex)

-- The part that reads the words of a text of 320 digits.
unfoldable pub decode_words : Str → ℕ → Result ℕ
unfolding word_to_u128
decode_words hex now = do
  top ← ok_or (first_digit (word hex 1)) (codes "bad answer word")
  guard (ltb top 8) (codes "chainlink answer is negative")
  answer ← word_to_u128 (word hex 1)
  guard (not (answer == 0)) (codes "chainlink answer is zero")
  updated_at ← word_to_u128 (word hex 3)
  guard (ltb updated_at u64_mod) (codes "updatedAt exceeds u64")
  guard (leb (now - updated_at) Config.chainlink_max_stale_secs) (codes "chainlink price is stale")
  ok answer

unfoldable pub decode_latest_round_data : Str → ℕ → Result ℕ
decode_latest_round_data result_hex now = do
  hex ← ok_or (strip_prefix (codes "0x") result_hex) (codes "result not 0x-prefixed")
  guard (length hex == 320 && all is_hex_digit hex) (codes "result is not 0x + 320 hex chars")
  decode_words hex now
