-- ===== src/GatewayWorker/Form.antt =====
-- `form_field` and `percent_decode` of gateway_worker/src/lib.rs, on texts as lists of bytes.
pub mod Encoded
use lets_embed.Prelude.{ℕ, ◌+◌, ◌*◌, Option, none, some, List, [], ◌∷◌, ◌==◌, if◌then◌else◌}
use lets_embed.Prelude.Options.{◌>>=◌, ◌>>◌, when}
use lets_embed.Prelude.Hex.{to_digit}
use lets_embed.Prelude.Split.{split, split_once}
use lets_embed.Prelude.Text.{Str, str_eq}
use lets_embed.Prelude.Utf8.{from_utf8_lossy}

-- The byte that `%` before two digits stands for.
abbrev escaped : ℕ → ℕ → ℕ → Option ℕ
escaped c h l = do when (c == b'%'); hi ← to_digit h; lo ← to_digit l; some (hi * 16 + lo)

abbrev unescaped : ℕ → ℕ
unescaped c = if c == b'+' then b' ' else c

-- The loop of `percent_decode`.
unfoldable pub decoded_bytes : Str → Str
decoded_bytes [] = []
decoded_bytes (c ∷ []) = unescaped c ∷ []
decoded_bytes (c ∷ h ∷ []) = unescaped c ∷ unescaped h ∷ []
decoded_bytes (c ∷ h ∷ l ∷ s) = elim (escaped c h l) [
  | none ↦ unescaped c ∷ decoded_bytes (h ∷ l ∷ s)
  | some b ↦ b ∷ decoded_bytes s
]

unfoldable pub percent_decode : Str → Str
percent_decode s = from_utf8_lossy (decoded_bytes s)

-- The value of a pair with the key.
unfoldable pub value_in : Str → Str → Option Str
value_in key pair = do (k, v) ← split_once b'=' pair; when (str_eq k key); some (percent_decode v)

-- `Iterator::find_map` over the pairs.
unfoldable pub find_value : Str → List Str → Option Str
find_value key [] = none
find_value key (pair ∷ pairs) = elim (value_in key pair) [
  | none ↦ find_value key pairs
  | some v ↦ some v
]

unfoldable pub form_field : Str → Str → Option Str
form_field body key = find_value key (split b'&' (from_utf8_lossy body))
