-- ===== src/Session/Tests.antt =====
-- Runs of the tokens and the principals of user_worker/src/session.rs.
use lets_embed.Prelude.{
  ℕ, ◌+◌, ◌-◌, ◌≤◌, ◌≡◌, refl, ap, ap₂, true, Option, none, some, List, [], ◌∷◌, ◌++◌, any, arith,
  ◌==◌, if◌then◌else◌,
}
use lets_embed.Prelude.Text.{Str, codes, strip_prefix}
use lets_embed.Prelude.Split.{IsFree}
use lets_embed.Session.{
  SessionClaims, Codec, is_eth_address, is_valid_principal, jwt_sign, jwt_verify, checked_claims,
}
use lets_embed.Session.Token.{IsCodec, Carries, jwt_verify-jwt_sign, jwt_verify-Carries}
use lets_embed.Session.Principals.{RefusesZero}

-- A code without the dot, which moves every byte up.
abbrev shifted : Str → Str
shifted [] = []
shifted (c ∷ s) = (c + 100) ∷ shifted s

abbrev shifted_back : Str → Str
shifted_back [] = []
shifted_back (c ∷ s) = (c - 100) ∷ shifted_back s

abbrev claims_of : Str → Option SessionClaims
claims_of [] = none
claims_of (i ∷ []) = none
claims_of (i ∷ e ∷ s) = some (record { sub = s; iat = i; exp = e })

abbrev lib : Codec
lib = record {
  b64_encode = shifted;
  b64_decode = λ s. some (shifted_back s);
  hmac = λ secret text. secret ++ text;
  to_json = λ c. c.iat ∷ c.exp ∷ c.sub;
  of_json = claims_of;
}

decode_shifted : (s : Str) → shifted_back (shifted s) ≡ s
decode_shifted [] = refl
decode_shifted (c ∷ s) = ap₂ (λ x xs. x ∷ xs) (omega arith) (decode_shifted s)

shifted-IsFree : (s : Str) → IsFree b'.' (shifted s)
shifted-IsFree [] = refl
shifted-IsFree (c ∷ s) = ground (arith, shifted-IsFree s)

lib-IsCodec : IsCodec lib
lib-IsCodec = record {
  decode-encode = λ s. ap some (decode_shifted s);
  no_dot = shifted-IsFree;
  of_json-to_json = λ c. refl;
}

-- A decoder that reads texts without a `0` only.
abbrev decode58 : Str → Option (List ℕ)
decode58 s = if any (λ c. c == b'0') s then none else some s

decode58-RefusesZero : RefusesZero decode58
decode58-RefusesZero s h = rw h refl

abbrev address : Str
address = codes "0xd8da6bf26964af9d7eed9e03e53415d37aa96045"

abbrev claims : SessionClaims
claims = record { sub = address; iat = 1000; exp = 2000 }

abbrev secret : Str
secret = codes "test-secret"

address-is_eth_address : is_eth_address address ≡ true
unfolding is_eth_address strip_prefix
address-is_eth_address = refl

-- Fresh, run out, and signed with another key.
fresh : checked_claims decode58 1500 claims ≡ some claims
unfolding checked_claims is_valid_principal is_eth_address strip_prefix
fresh = refl

run_out : checked_claims decode58 2001 claims ≡ none
unfolding checked_claims
run_out = refl

jwt_verify-jwt_sign_example :
    jwt_verify decode58 lib (jwt_sign lib claims secret) secret 1500
    ≡ checked_claims decode58 1500 claims
jwt_verify-jwt_sign_example = jwt_verify-jwt_sign decode58 lib lib-IsCodec claims secret 1500

accepted : jwt_verify decode58 lib (jwt_sign lib claims secret) secret 1500 ≡ some claims
accepted = rw (jwt_verify-jwt_sign decode58 lib lib-IsCodec claims secret 1500) fresh

jwt_verify-Carries_example :
    Carries decode58 lib (jwt_sign lib claims secret) secret claims
    × (1500 ≤ claims.exp)
    × (is_valid_principal decode58 address ≡ true)
jwt_verify-Carries_example =
    jwt_verify-Carries decode58 lib (jwt_sign lib claims secret) secret 1500 claims accepted
