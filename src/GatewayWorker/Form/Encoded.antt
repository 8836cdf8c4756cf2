-- ===== src/GatewayWorker/Form/Encoded.antt =====
-- What `form_field` of gateway_worker/src/lib.rs reads from a form that a client encodes.
use lets_embed.Prelude.{
  ℕ, ◌+◌, ◌-◌, ◌*◌, ◌/◌, ◌%◌, ◌<◌, ◌≡◌, refl, ap, ◌∙◌, Bool, true, not, ◌&&◌, ◌||◌, Option, none,
  some, List, [], ◌∷◌, ◌++◌, all, all-append, map, arith, ltb, ◌==◌, if◌then◌else◌, inl, inr,
  Bool-cases,
}
use lets_embed.Prelude.Hex.{to_digit}
use lets_embed.Prelude.Split.{
  split, split_once, join, IsFree, AllFree, split-join, split_once-append,
}
use lets_embed.Prelude.Text.{Str, str_eq, in_range}
use lets_embed.Prelude.Utf8.{IsUtf8, lossy_from}
use lets_embed.GatewayWorker.Form.{decoded_bytes, percent_decode, value_in, find_value, form_field}

-- A byte that the encoding keeps.
abbrev is_kept : ℕ → Bool
is_kept c =
    in_range b'a' b'z' c
    || in_range b'A' b'Z' c
    || in_range b'0' b'9' c
    || c == b'*'
    || c == b'-'
    || c == b'.'
    || c == b'_'

abbrev hex_digit : ℕ → ℕ
hex_digit d = if ltb d 10 then b'0' + d else b'A' + (d - 10)

-- The encoding of `application/x-www-form-urlencoded`.
abbrev encoded_byte : ℕ → Str
encoded_byte c =
    if is_kept c
    then c ∷ []
    else if c == b' '
    then b'+' ∷ []
    else b'%' ∷ hex_digit (c / 16) ∷ hex_digit (c % 16) ∷ []

unfoldable pub encoded : Str → Str
encoded [] = []
encoded (c ∷ s) = encoded_byte c ++ encoded s

abbrev pub pair_text : Str × Str → Str
pair_text (k, v) = k ++ (b'=' ∷ encoded v)

unfoldable pub form_text : List (Str × Str) → Str
form_text fields = join (b'&' ∷ []) (map pair_text fields)

-- The value of the first field with the key.
unfoldable pub first_value : Str → List (Str × Str) → Option Str
first_value key [] = none
first_value key ((k, v) ∷ fields) = if str_eq k key then some v else first_value key fields

abbrev all_bytes : Str → Bool
all_bytes s = all (λ c. ltb c 256) s

-- Keys that need no encoding, and values that are UTF-8.
abbrev pub AllFields : List (Str × Str) → Type 0
AllFields [] = Unit
AllFields ((k, v) ∷ fields) =
    ((all is_kept k ≡ true) × (all_bytes v ≡ true) × IsUtf8 v) × AllFields fields

kept_step : (c : ℕ) (s : Str) → is_kept c ≡ true → decoded_bytes (c ∷ s) ≡ c ∷ decoded_bytes s
unfolding decoded_bytes
kept_step c [] h = ground arith
kept_step c (d ∷ []) h = ground arith
kept_step c (d ∷ e ∷ s) h = ground arith

space_step : (s : Str) → decoded_bytes (b'+' ∷ s) ≡ b' ' ∷ decoded_bytes s
unfolding decoded_bytes
space_step [] = refl
space_step (d ∷ []) = refl
space_step (d ∷ e ∷ s) = refl

to_digit-hex_digit : (d : ℕ) → d < 16 → to_digit (hex_digit d) ≡ some d
unfolding to_digit
to_digit-hex_digit d h = ground arith

escape_step :
    (c : ℕ) (s : Str)
    → c < 256
    → decoded_bytes (b'%' ∷ hex_digit (c / 16) ∷ hex_digit (c % 16) ∷ s) ≡ c ∷ decoded_bytes s
unfolding decoded_bytes
escape_step c s h =
    let whole : c / 16 * 16 + c % 16 ≡ c = omega arith in
    rw
      (
        to_digit-hex_digit (c / 16) (omega arith),
        to_digit-hex_digit (c % 16) (omega arith),
        decoded_bytes,
      )
      (ap (λ x. x ∷ decoded_bytes s) whole)

byte_step : (c : ℕ) (s : Str) → c < 256 → decoded_bytes (encoded_byte c ++ s) ≡ c ∷ decoded_bytes s
byte_step c s h = elim (Bool-cases (is_kept c)) [
  | inl kept ↦ rw kept (kept_step c s kept)
  | inr other ↦ elim (Bool-cases (c == b' ')) [
    | inl space ↦ rw (other, space) (space_step s ∙ ground arith)
    | inr more ↦ rw (other, more) (escape_step c s h)
  ]
]

decoded_bytes-encoded : (s : Str) → all_bytes s ≡ true → decoded_bytes (encoded s) ≡ s
unfolding encoded
decoded_bytes-encoded [] h = unfold decoded_bytes in refl
decoded_bytes-encoded (c ∷ s) h =
    byte_step c (encoded s) (ground arith)
    ∙ ap (λ t. c ∷ t) (decoded_bytes-encoded s (ground arith))

-- A byte of the text of a pair.
abbrev is_plain : ℕ → Bool
is_plain c = ltb c 0x80 && not (c == b'&')

encoded_plain : (s : Str) → all_bytes s ≡ true → all is_plain (encoded s) ≡ true
unfolding encoded
encoded_plain [] h = refl
encoded_plain (c ∷ s) h =
    all-append is_plain (encoded_byte c) (encoded s) (ground arith) (encoded_plain s (ground arith))

key_plain : (s : Str) → all is_kept s ≡ true → all is_plain s ≡ true
key_plain [] h = refl
key_plain (c ∷ s) h = let rest = key_plain s (ground arith) in ground arith

key-IsFree : (s : Str) → all is_kept s ≡ true → IsFree b'=' s
key-IsFree [] h = refl
key-IsFree (c ∷ s) h = let rest = key-IsFree s (ground arith) in ground arith

plain-IsFree : (s : Str) → all is_plain s ≡ true → IsFree b'&' s
plain-IsFree [] h = refl
plain-IsFree (c ∷ s) h = let rest = plain-IsFree s (ground arith) in ground arith

plain_ascii : (s : Str) → all is_plain s ≡ true → all (λ c. ltb c 0x80) s ≡ true
plain_ascii [] h = refl
plain_ascii (c ∷ s) h = let rest = plain_ascii s (ground arith) in ground arith

pair_plain :
    (k v : Str) → all is_kept k ≡ true → all_bytes v ≡ true → all is_plain (pair_text (k, v)) ≡ true
pair_plain k v h d = all-append is_plain k (b'=' ∷ encoded v) (key_plain k h) (encoded_plain v d)

fields_free : (fields : List (Str × Str)) → AllFields fields → AllFree b'&' (map pair_text fields)
fields_free [] h = tt
fields_free ((k, v) ∷ fields) h =
    (plain-IsFree (pair_text (k, v)) (pair_plain k v h.0.0 h.0.1), fields_free fields h.1)

abbrev is_ascii : Str → Bool
is_ascii s = all (λ c. ltb c 0x80) s

form_ascii : (fields : List (Str × Str)) → AllFields fields → is_ascii (form_text fields) ≡ true
unfolding form_text join
form_ascii [] h = refl
form_ascii ((k, v) ∷ []) h = plain_ascii (pair_text (k, v)) (pair_plain k v h.0.0 h.0.1)
form_ascii ((k, v) ∷ f ∷ fields) h =
    all-append _ (pair_text (k, v)) _ (plain_ascii (pair_text (k, v)) (pair_plain k v h.0.0 h.0.1))
      (form_ascii (f ∷ fields) h.1)

ascii-IsUtf8 : (s : Str) → is_ascii s ≡ true → IsUtf8 s
unfolding lossy_from
ascii-IsUtf8 [] h = refl
ascii-IsUtf8 (c ∷ s) h =
    let low : ltb c 0x80 ≡ true = ground arith in
    rw low (ap (λ t. c ∷ t) (ascii-IsUtf8 s (ground arith)))

value_in-pair_text :
    (key k v : Str)
    → all is_kept k ≡ true
    → all_bytes v ≡ true
    → IsUtf8 v
    → value_in key (pair_text (k, v)) ≡ (if str_eq k key then some v else none)
unfolding value_in percent_decode
value_in-pair_text key k v h d u =
    rw (split_once-append b'=' k (encoded v) (key-IsFree k h), decoded_bytes-encoded v d, u)
      (ground arith)

find_value-map :
    (key : Str) (fields : List (Str × Str))
    → AllFields fields
    → find_value key (map pair_text fields) ≡ first_value key fields
unfolding find_value first_value
find_value-map key [] h = refl
find_value-map key ((k, v) ∷ fields) h =
    rw (value_in-pair_text key k v h.0.0 h.0.1 h.0.2, find_value)
      (elim (Bool-cases (str_eq k key)) [
        | inl e ↦ rw e refl
        | inr e ↦ rw e (find_value-map key fields h.1)
      ])

-- The pairs of a form that is not empty.
find_value-split :
    (key : Str) (fields : List (Str × Str))
    → AllFields fields
    → find_value key (split b'&' (form_text fields)) ≡ first_value key fields
unfolding form_text
find_value-split key [] h = unfold find_value split value_in split_once join first_value in refl
find_value-split key (f ∷ fields) h =
    ap (find_value key)
      (split-join b'&' (pair_text f) (map pair_text fields) (fields_free (f ∷ fields) h))
    ∙ find_value-map key (f ∷ fields) h

-- In a form whose keys need no encoding and whose values are UTF-8, encoded as
-- application/x-www-form-urlencoded, the field read under a key is the value of the first pair
-- with that key, and none if there is no such pair.
pub form_field-form_text :
    (key : Str) (fields : List (Str × Str))
    → AllFields fields
    → form_field (form_text fields) key ≡ first_value key fields
unfolding form_field
form_field-form_text key fields h =
    ap (λ t. find_value key (split b'&' t)) (ascii-IsUtf8 (form_text fields) (form_ascii fields h))
    ∙ find_value-split key fields h
