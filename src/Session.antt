-- ===== src/Session.antt =====
-- Session tokens and principals: user_worker/src/session.rs. The gateway worker has a copy of the
-- checking half in gateway_worker/src/lib.rs. Base64, HMAC-SHA256, base58 and the JSON of the claims
-- are library code, and parameters here; texts are lists of bytes.
pub mod Token
pub mod Principals
mod Tests
use lets_embed.Prelude.{
  ℕ, Bool, true, false, ◌&&◌, ◌||◌, Option, none, some, List, ◌++◌, ◌∷◌, all, drop, length, leb,
  ◌==◌, if◌then◌else◌, and_then,
}
use lets_embed.Prelude.Text.{Str, codes, str_eq, in_range}
use lets_embed.Prelude.Options.{◌>>=◌, ◌>>◌, when}
use lets_embed.Prelude.Split.{split_once, starts_with}

pub record SessionClaims : Type 0 where
  pub sub : Str
  pub iat : ℕ
  pub exp : ℕ

-- `is_eth_address`.
abbrev pub is_lower_hex : ℕ → Bool
is_lower_hex b = in_range b'0' b'9' b || in_range b'a' b'f' b

unfoldable pub is_eth_address : Str → Bool
is_eth_address s = length s == 42 && starts_with (codes "0x") s && all is_lower_hex (drop 2 s)

module _ (decode58 : Str → Option (List ℕ)) where
  unfoldable pub is_sol_principal : Str → Bool
  is_sol_principal s = elim (decode58 s) [
    | none ↦ false
    | some bytes ↦ leb 32 (length s) && leb (length s) 44 && length bytes == 32
  ]

  unfoldable pub is_valid_principal : Str → Bool
  is_valid_principal s = is_eth_address s || is_sol_principal s

-- The library functions that a token is made with.
pub record Codec : Type 0 where
  pub b64_encode : Str → Str
  pub b64_decode : Str → Option Str
  pub hmac : Str → Str → Str
  pub to_json : SessionClaims → Str
  pub of_json : Str → Option SessionClaims

-- `jwt_sign`.
unfoldable pub jwt_sign : Codec → SessionClaims → Str → Str
jwt_sign lib c secret =
    let payload = lib.b64_encode (lib.to_json c) in
    payload ++ (b'.' ∷ lib.b64_encode (lib.hmac secret payload))

module _ (decode58 : Str → Option (List ℕ)) where
  -- The claims, unless they have run out or name no principal.
  unfoldable pub checked_claims : ℕ → SessionClaims → Option SessionClaims
  checked_claims now c = if leb now c.exp && is_valid_principal decode58 c.sub then some c else none

  -- `jwt_verify`.
  unfoldable pub jwt_verify : Codec → Str → Str → ℕ → Option SessionClaims
  jwt_verify lib token secret now = do
    (payload, sig) ← split_once b'.' token
    tag ← lib.b64_decode sig
    when (str_eq tag (lib.hmac secret payload))
    json ← lib.b64_decode payload
    c ← lib.of_json json
    checked_claims now c

  -- `session_address`, from the value of the session cookie.
  unfoldable pub session_address : Codec → Option Str → Str → ℕ → Option Str
  session_address lib cookie secret now = do
    token ← cookie
    c ← jwt_verify lib token secret now
    some c.sub
