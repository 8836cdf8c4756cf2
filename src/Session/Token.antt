-- ===== src/Session/Token.antt =====
-- What a token proves: `jwt_sign` and `jwt_verify` of user_worker/src/session.rs.
use lets_embed.Prelude.{ℕ, ◌≤◌, ◌≡◌, refl, ap, ◌∙◌, true, Option, some, List, arith}
use lets_embed.Prelude.Options.{bind_some, when-some}
use lets_embed.Prelude.Split.{split_once, split_once-append, IsFree}
use lets_embed.Prelude.Text.{Str, str_eq, str_eq_iff, str_eq_refl}
use lets_embed.Session.{
  SessionClaims, Codec, is_valid_principal, jwt_sign, checked_claims, jwt_verify,
}

-- What the library promises: decoding undoes encoding, and base64 text has no dot.
pub record IsCodec (lib : Codec) : Type 0 where
  pub decode-encode : (s : Str) → lib.b64_decode (lib.b64_encode s) ≡ some s
  pub no_dot : (s : Str) → IsFree b'.' (lib.b64_encode s)
  pub of_json-to_json : (c : SessionClaims) → lib.of_json (lib.to_json c) ≡ some c

module _ (decode58 : Str → Option (List ℕ)) (lib : Codec) where
  -- If decoding undoes encoding for base64 and JSON and base64 text has no dot, a signed token
  -- gives its claims back under the same secret, unless they have run out or name no valid
  -- principal.
  pub jwt_verify-jwt_sign :
      IsCodec lib
      → (c : SessionClaims) (secret : Str) (now : ℕ)
      → jwt_verify decode58 lib (jwt_sign lib c secret) secret now ≡ checked_claims decode58 now c
  unfolding jwt_verify jwt_sign
  jwt_verify-jwt_sign v c secret now =
      let payload = lib.b64_encode (lib.to_json c) in
      rw
        (
          split_once-append b'.' payload (lib.b64_encode (lib.hmac secret payload))
              (v.no_dot (lib.to_json c)),
          v.decode-encode (lib.hmac secret payload),
          str_eq_refl (lib.hmac secret payload),
          v.decode-encode (lib.to_json c),
          v.of_json-to_json c,
        )
        refl

  -- A token that carries the claims under the secret.
  pub record Carries (token secret : Str) (c : SessionClaims) : Type 0 where
    pub payload : Str
    pub sig : Str
    pub parts : split_once b'.' token ≡ some (payload, sig)
    pub tag : lib.b64_decode sig ≡ some (lib.hmac secret payload)
    pub json : Str
    pub decoded : lib.b64_decode payload ≡ some json
    pub claims : lib.of_json json ≡ some c

  checked_claims_lem :
      (now : ℕ) (d c : SessionClaims)
      → checked_claims decode58 now d ≡ some c
      → (d ≡ c) × (now ≤ c.exp) × (is_valid_principal decode58 c.sub ≡ true)
  unfolding checked_claims
  checked_claims_lem now d c h = ground arith

  -- A token is accepted only if it is a payload and a tag with a dot between, the tag decodes to
  -- the HMAC of the payload under the secret, the payload decodes to the claims, and the claims
  -- have not run out and name a valid principal.
  pub jwt_verify-Carries :
      (token secret : Str) (now : ℕ) (c : SessionClaims)
      → jwt_verify decode58 lib token secret now ≡ some c
      → Carries token secret c × (now ≤ c.exp) × (is_valid_principal decode58 c.sub ≡ true)
  unfolding jwt_verify
  jwt_verify-Carries token secret now c h =
      let ((payload, sig), parts, h1) = bind_some (split_once b'.' token) _ c h in
      let (tag, decoded_sig, h2) = bind_some (lib.b64_decode sig) _ c h1 in
      let (same, h3) = when-some (str_eq tag (lib.hmac secret payload)) _ c h2 in
      let (json, decoded, h4) = bind_some (lib.b64_decode payload) _ c h3 in
      let (d, claims, h5) = bind_some (lib.of_json json) _ c h4 in
      let (e, fresh, valid) = checked_claims_lem now d c h5 in
      let carries : Carries token secret c = record {
        payload = payload;
        sig = sig;
        parts = parts;
        tag = decoded_sig ∙ ap some ((str_eq_iff tag (lib.hmac secret payload)).0 same);
        json = json;
        decoded = decoded;
        claims = claims ∙ ap some e;
      } in
      (carries, fresh, valid)
