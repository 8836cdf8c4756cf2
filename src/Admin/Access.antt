-- ===== src/Admin/Access.antt =====
-- `require_approver` of user_worker/src/admin.rs: the check of a Cloudflare Access token. Base64,
-- JSON, SHA-256 and RSA are library code, and parameters here; the key set is fetched from outside.
pub mod Keys
pub mod Vouched
use lets_embed.Prelude.{
  ℕ, Bool, true, false, not, ◌&&◌, Option, none, some, List, [], ◌∷◌, ◌++◌, any, find, leb, length,
  if◌then◌else◌, and_then,
}
use lets_embed.Prelude.Options.{◌>>=◌, ◌>>◌, when}
use lets_embed.Prelude.Split.{split}
use lets_embed.Prelude.Text.{Str, codes, str_eq}

pub record Jwk : Type 0 where
  pub kid : Str
  pub n : Str
  pub e : Str

pub record JwtHeader : Type 0 where
  pub kid : Str
  pub alg : Str

-- The claim `aud` as JSON: a text, an array with its texts, or another value.
pub data Aud : Type 0 where
  single : Str → Aud
  several : List (Option Str) → Aud
  other : Aud

pub record AccessClaims : Type 0 where
  pub aud : Aud
  pub email : Option Str
  pub iss : Str
  pub exp : ℕ
  pub nbf : Option ℕ

-- The library functions that the check calls. `rsa_accepts` is the making of the key from its two
-- numbers and the check of the signature under it.
pub record AccessLib : Type 0 where
  pub b64url : Str → Option Str
  pub parse_header : Str → Option JwtHeader
  pub parse_claims : Str → Option AccessClaims
  pub parse_jwks : Str → Option (List Jwk)
  pub sha256 : Str → Str
  pub rsa_accepts : Str → Str → Str → Str → Bool

-- What a check meets outside: whether the key-value store answers, and what the fetch of the
-- certificates gives, which a check makes at most once without and once with `force`.
pub record Web : Type 0 where
  pub kv_bound : Bool
  pub kv_read : Bool
  pub kv_write : Bool
  pub fetched : Bool → Option Str

module _ (lib : AccessLib) where
  -- The key set that the store holds.
  unfoldable pub cached_jwks : Web → Option Str → Option (List Jwk)
  cached_jwks web kv = if web.kv_read then and_then kv lib.parse_jwks else none

  abbrev stored : Web → Str → Option Str → Option Str
  stored web text kv = if web.kv_write then some text else kv

  -- The key set as fetched, which the store then holds.
  unfoldable pub fetch_jwks : Web → Bool → Option Str → Option (List Jwk) × Option Str
  fetch_jwks web force kv = elim (web.fetched force) [
    | none ↦ (none, kv)
    | some text ↦ elim (lib.parse_jwks text) [
      | none ↦ (none, kv)
      | some keys ↦ (some keys, stored web text kv)
    ]
  ]

  -- `load_jwks`, with the text that the store holds afterwards.
  unfoldable pub load_jwks : Web → Bool → Option Str → Option (List Jwk) × Option Str
  load_jwks web force kv =
      if not web.kv_bound
      then (none, kv)
      else if force
      then fetch_jwks web force kv
      else elim (cached_jwks web kv) [
        | some keys ↦ (some keys, kv)
        | none ↦ fetch_jwks web force kv
      ]

  abbrev pub has_kid : Str → Jwk → Bool
  has_kid kid k = str_eq k.kid kid

  abbrev pub found_in : Str → Option (List Jwk) × Option Str → Option Jwk × Option Str
  found_in kid (none, kv) = (none, kv)
  found_in kid (some keys, kv) = (find (has_kid kid) keys, kv)

  abbrev pub or_fresh : Web → Str → Option (List Jwk) × Option Str → Option Jwk × Option Str
  or_fresh web kid (none, kv) = (none, kv)
  or_fresh web kid (some keys, kv) = elim (find (has_kid kid) keys) [
    | some k ↦ (some k, kv)
    | none ↦ found_in kid (load_jwks web true kv)
  ]

  -- The key that is looked for in a set, and once more in a fresh one.
  unfoldable pub find_key : Web → Str → Option Str → Option Jwk × Option Str
  find_key web kid kv = or_fresh web kid (load_jwks web false kv)

  -- The signature of `h.p` under a key.
  unfoldable pub is_signed : Str → Str → Str → Jwk → Bool
  is_signed h p s k = elim (lib.b64url k.n) [
    | none ↦ false
    | some n ↦ elim (lib.b64url k.e) [
      | none ↦ false
      | some e ↦ elim (lib.b64url s) [
        | none ↦ false
        | some sig ↦ lib.rsa_accepts n e (lib.sha256 (h ++ (b'.' ∷ p))) sig
      ]
    ]
  ]

abbrev is_text : Str → Option Str → Bool
is_text expected none = false
is_text expected (some a) = str_eq a expected

unfoldable pub aud_ok : Str → Aud → Bool
aud_ok expected (single a) = str_eq a expected
aud_ok expected (several l) = any (is_text expected) l
aud_ok expected other = false

-- `str::trim_end_matches('/')`.
unfoldable pub trim_slashes : Str → Str
trim_slashes [] = []
trim_slashes (c ∷ s) = elim (trim_slashes s) [
  | [] ↦ if str_eq (c ∷ []) (codes "/") then [] else c ∷ []
  | d ∷ t ↦ c ∷ d ∷ t
]

abbrev pub not_early : ℕ → Option ℕ → Bool
not_early now none = true
not_early now (some nbf) = leb nbf now

-- The tests of the claims, in the order of the source.
unfoldable pub claims_ok : Str → Str → ℕ → AccessClaims → Bool
claims_ok team expected now c =
    leb now c.exp
    && not_early now c.nbf
    && str_eq (trim_slashes c.iss) (trim_slashes (codes "https://" ++ team))
    && aud_ok expected c.aud

-- The settings of the worker that the check reads.
pub record Gate : Type 0 where
  pub lib : AccessLib
  pub web : Web
  pub team_domain : Str
  pub access_aud : Str

module _ (gate : Gate) where
  -- The end of the check, once the key is found.
  unfoldable pub claims_of : ℕ → Str → Str → Str → Jwk → Option AccessClaims
  claims_of now h p s k = do
    when (is_signed gate.lib h p s k)
    json ← gate.lib.b64url p
    c ← gate.lib.parse_claims json
    when (claims_ok gate.team_domain gate.access_aud now c)
    some c

  abbrev pub with_key :
      ℕ → Str → Str → Str → Option Jwk × Option Str → Option AccessClaims × Option Str
  with_key now h p s (none, kv) = (none, kv)
  with_key now h p s (some k, kv) = (claims_of now h p s k, kv)

  abbrev pub key_id : Str → Option Str
  key_id h = do
    json ← gate.lib.b64url h
    header ← gate.lib.parse_header json
    when (str_eq header.alg (codes "RS256"))
    some header.kid

  -- `verify_access_jwt` on the parts of a token.
  unfoldable pub verify_parts : ℕ → List Str → Option Str → Option AccessClaims × Option Str
  verify_parts now (h ∷ p ∷ s ∷ []) kv = elim (key_id h) [
    | none ↦ (none, kv)
    | some kid ↦ with_key now h p s (find_key gate.lib gate.web kid kv)
  ]
  verify_parts now _ kv = (none, kv)

  unfoldable pub verify_access_jwt : ℕ → Str → Option Str → Option AccessClaims × Option Str
  verify_access_jwt now token kv = verify_parts now (split b'.' token) kv

  -- `require_approver`, from the header of the request: the e-mail address of the approver, and the
  -- text that the store holds afterwards.
  unfoldable pub require_approver : ℕ → Option Str → Option Str → Option Str × Option Str
  require_approver now header kv = elim header [
    | none ↦ (none, kv)
    | some token ↦
        let (claims, kv') = verify_access_jwt now token kv in (and_then claims (λ c. c.email), kv')
  ]
