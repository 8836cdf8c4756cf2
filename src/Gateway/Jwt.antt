-- ===== src/Gateway/Jwt.antt =====
-- `verify` of gateway/src/jwt.rs. Base64, JSON and the checks of keys and signatures are library
-- code, and parameters here.
pub mod Checked
use lets_embed.Prelude.{
  ℕ, Bool, true, false, not, ◌&&◌, Option, none, some, List, [], ◌∷◌, ◌++◌, any, find, leb, ltb,
  if◌then◌else◌,
}
use lets_embed.Prelude.Results.{Result, ok, err, guard, ok_or, ◌>>=◌, ◌>>◌}
use lets_embed.Prelude.Split.{split}
use lets_embed.Prelude.Utf8.{from_utf8_lossy}
use lets_embed.Prelude.Text.{Str, codes, str_eq}

pub record Key : Type 0 where
  pub kid : Str
  pub n : Str
  pub e : Str

pub record JwtKeyInfo : Type 0 where
  pub alg : Str
  pub kid : Str

pub data Audience : Type 0 where
  single : Str → Audience
  multiple : List Str → Audience

pub record JwtClaim : Type 0 where
  pub aud : Audience
  pub exp : ℕ
  pub iss : Str

-- `Audience::contains`.
unfoldable pub contains : Audience → Str → Bool
contains (single s) expected = str_eq s expected
contains (multiple l) expected = any (str_eq expected) l

-- The library functions. A public key is of the type `K`.
pub record Lib {ℓ} (K : Type ℓ) : Type ℓ where
  pub decode : Str → Option Str
  pub parse_key : Str → Str → Option K
  pub parse_info : Str → Option JwtKeyInfo
  pub parse_claim : Str → Option JwtClaim
  pub verify_sig : K → Str → Str → Bool

module _ {ℓ} {K : Type ℓ} (lib : Lib K) where
  -- One key of `init_keys`: its numbers are decoded, and the key is made of them.
  unfoldable pub parsed_key : Key → Option (Str × K)
  parsed_key k = elim (lib.decode k.n) [
    | none ↦ none
    | some n ↦ elim (lib.decode k.e) [
      | none ↦ none
      | some e ↦ elim (lib.parse_key n e) [ none ↦ none | some key ↦ some (k.kid, key) ]
    ]
  ]

  -- `init_keys` on the keys as fetched: all of them, or none (`try_collect`).
  unfoldable pub init_keys : List Key → Option (List (Str × K))
  init_keys [] = some []
  init_keys (k ∷ keys) = elim (parsed_key k) [
    | none ↦ none
    | some p ↦ elim (init_keys keys) [ none ↦ none | some rest ↦ some (p ∷ rest) ]
  ]

  -- The map of keys that the background thread refreshes: what is there stays when the fetch fails.
  unfoldable pub refreshed : Option (List Key) → List (Str × K) → List (Str × K)
  refreshed none old = old
  refreshed (some keys) old = elim (init_keys keys) [ none ↦ old | some new ↦ new ]

  -- `keys.get(&kid)`, where a later key with the same name has replaced an earlier one.
  unfoldable pub get_key : Str → List (Str × K) → Option K
  get_key kid [] = none
  get_key kid ((name, key) ∷ keys) = elim (get_key kid keys) [
    | some later ↦ some later
    | none ↦ if str_eq name kid then some key else none
  ]

  -- The checks of the claims, in the order of the source.
  unfoldable pub check_claim : Str → Str → ℕ → JwtClaim → Result {0} Unit
  check_claim team expected_aud now c = do
    guard (contains c.aud expected_aud) (codes "aud mismatch")
    guard (str_eq c.iss (codes "https://" ++ (team ++ codes ".cloudflareaccess.com")))
        (codes "iss mismatch")
    guard (leb now c.exp) (codes "expired")

  abbrev pub parts_of : List Str → Result (Str × Str × Str)
  parts_of (h ∷ c ∷ s ∷ []) = ok (h, c, s)
  parts_of _ = err (codes "invalid jwt format")

  abbrev pub bad_input : Str
  bad_input = codes "invalid input"

  -- `verify` on the parts of a token, once the team and the keys are there.
  unfoldable pub verify_parts : Str → List (Str × K) → Str → ℕ → Str × Str × Str → Result {0} Unit
  verify_parts team keys expected_aud now (h, c, s) = do
    header ← ok_or (lib.decode h) bad_input
    info ← ok_or (lib.parse_info header) bad_input
    guard (str_eq info.alg (codes "RS256")) (codes "unsupport sign algorithm")
    key ← ok_or (get_key info.kid keys) (codes "key id not found")
    sig ← ok_or (lib.decode s) bad_input
    guard (lib.verify_sig key (h ++ (b'.' ∷ c)) sig) (codes "invalid signature")
    claim ← ok_or (lib.decode c) bad_input
    claims ← ok_or (lib.parse_claim claim) bad_input
    check_claim team expected_aud now claims

  -- `verify`, from the bytes of the token.
  unfoldable pub verify : Option Str → Option (List (Str × K)) → Str → Str → ℕ → Result {0} Unit
  verify team keys jwt expected_aud now = do
    t ← ok_or team (codes "no team")
    ks ← ok_or keys (codes "no keys")
    parts ← parts_of (split b'.' (from_utf8_lossy jwt))
    verify_parts t ks expected_aud now parts
