-- ===== src/Admin/Access/Vouched.antt =====
-- What an accepted token has been checked for.
use lets_embed.Prelude.{
  ℕ, ◌≤◌, ◌≡◌, refl, ap, ◌∙◌, inl, inr, true, Option, none, some, List, [], ◌∷◌, ◌++◌, ap₂, arith,
  Option-cases,
}
use lets_embed.Prelude.Options.{bind_some, when-some}
use lets_embed.Prelude.Split.{split}
use lets_embed.Prelude.Text.{Str, codes, str_eq, str_eq_iff}
use lets_embed.Admin.Access.Keys.{IsTeamKey, find_key-IsTeamKey}
use lets_embed.Admin.Access.{
  Jwk, AccessClaims, Gate, find_key, is_signed, aud_ok, trim_slashes, not_early, claims_ok,
  claims_of, with_key, key_id, verify_parts, verify_access_jwt, require_approver,
}

-- A token that names an approver.
pub record IsVouched (gate : Gate) (now : ℕ) (token kv : Option Str) (email : Str) : Type 0 where
  pub text : Str
  pub h : Str
  pub p : Str
  pub s : Str
  pub present : token ≡ some text
  pub parts : split b'.' text ≡ h ∷ p ∷ s ∷ []
  pub header_text : Str
  pub kid : Str
  pub header_decoded : gate.lib.b64url h ≡ some header_text
  pub header : gate.lib.parse_header header_text ≡ some (record { kid = kid; alg = codes "RS256" })
  pub key : Jwk
  pub trusted : IsTeamKey gate.lib gate.web kv kid key
  pub signed : is_signed gate.lib h p s key ≡ true
  pub claims_text : Str
  pub claims : AccessClaims
  pub claims_decoded : gate.lib.b64url p ≡ some claims_text
  pub parsed : gate.lib.parse_claims claims_text ≡ some claims
  pub unexpired : now ≤ claims.exp
  pub begun : not_early now claims.nbf ≡ true
  pub issuer : trim_slashes claims.iss ≡ trim_slashes (codes "https://" ++ gate.team_domain)
  pub audience : aud_ok gate.access_aud claims.aud ≡ true
  pub named : claims.email ≡ some email

module _ (gate : Gate) (now : ℕ) where
  claims_ok-Checked :
      (c : AccessClaims)
      → claims_ok gate.team_domain gate.access_aud now c ≡ true
      → (now ≤ c.exp)
        × (not_early now c.nbf ≡ true)
        × (trim_slashes c.iss ≡ trim_slashes (codes "https://" ++ gate.team_domain))
        × (aud_ok gate.access_aud c.aud ≡ true)
  unfolding claims_ok
  claims_ok-Checked c h =
      let iss =
        str_eq_iff (trim_slashes c.iss) (trim_slashes (codes "https://" ++ gate.team_domain)) in
      (ground arith, ground arith, ground (arith, iss), ground arith)

  claims_of-IsVouched :
      (text h p s kid header_text : Str) (kv : Option Str) (k : Jwk) (c : AccessClaims)
      (email : Str)
      → split b'.' text ≡ h ∷ p ∷ s ∷ []
      → gate.lib.b64url h ≡ some header_text
      → gate.lib.parse_header header_text ≡ some (record { kid = kid; alg = codes "RS256" })
      → IsTeamKey gate.lib gate.web kv kid k
      → claims_of gate now h p s k ≡ some c
      → c.email ≡ some email
      → IsVouched gate now (some text) kv email
  unfolding claims_of
  claims_of-IsVouched text h p s kid header_text kv k c email parts dec head key r named =
      let (signed, r1) = when-some (is_signed gate.lib h p s k) _ c r in
      let (json, e1, r2) = bind_some (gate.lib.b64url p) _ c r1 in
      let (c', e2, r3) = bind_some (gate.lib.parse_claims json) _ c r2 in
      let (valid, r4) = when-some (claims_ok gate.team_domain gate.access_aud now c') _ c r3 in
      let same : c' ≡ c = ground (arith, r4) in
      let checks = claims_ok-Checked c' valid in
      record {
        text = text;
        h = h;
        p = p;
        s = s;
        present = refl;
        parts = parts;
        header_text = header_text;
        kid = kid;
        header_decoded = dec;
        header = head;
        key = k;
        trusted = key;
        signed = signed;
        claims_text = json;
        claims = c';
        claims_decoded = e1;
        parsed = e2;
        unexpired = checks.0;
        begun = checks.1;
        issuer = checks.2;
        audience = checks.3;
        named = ap (λ c. c.email) same ∙ named;
      }

  key_id-header :
      (h kid : Str)
      → key_id gate h ≡ some kid
      → (json : Str) × (gate.lib.b64url h ≡ some json)
        × (gate.lib.parse_header json ≡ some (record { kid = kid; alg = codes "RS256" }))
  key_id-header h kid e =
      let (json, e1, r1) = bind_some (gate.lib.b64url h) _ kid e in
      let (header, e2, r2) = bind_some (gate.lib.parse_header json) _ kid r1 in
      let (alg, r3) = when-some (str_eq header.alg (codes "RS256")) _ kid r2 in
      let same : header.alg ≡ codes "RS256" = (str_eq_iff header.alg (codes "RS256")).0 alg in
      let named : header.kid ≡ kid = ground (arith, r3) in
      (json, e1, e2 ∙ ap₂ (λ k a. some (record { kid = k; alg = a })) named same)

  with_key-cases :
      (h p s : Str) (r : Option Jwk × Option Str) (c : AccessClaims)
      → (with_key gate now h p s r).0 ≡ some c
      → (k : Jwk) × (r.0 ≡ some k) × (claims_of gate now h p s k ≡ some c)
  with_key-cases h p s (none, kv) c e = absurd (ground arith)
  with_key-cases h p s (some k, kv) c e = (k, refl, e)

  verify_parts-IsVouched :
      (text : Str) (l : List Str) (kv : Option Str) (c : AccessClaims) (email : Str)
      → split b'.' text ≡ l
      → (verify_parts gate now l kv).0 ≡ some c
      → c.email ≡ some email
      → IsVouched gate now (some text) kv email
  unfolding verify_parts
  verify_parts-IsVouched text [] kv c email parts e named = absurd (ground arith)
  verify_parts-IsVouched text (h ∷ []) kv c email parts e named = absurd (ground arith)
  verify_parts-IsVouched text (h ∷ p ∷ []) kv c email parts e named = absurd (ground arith)
  verify_parts-IsVouched text (h ∷ p ∷ s ∷ x ∷ l) kv c email parts e named = absurd (ground arith)
  verify_parts-IsVouched text (h ∷ p ∷ s ∷ []) kv c email parts e named =
      elim (Option-cases (key_id gate h)) [
        | inl missing ↦ absurd (ground (arith, missing))
        | inr (kid, known) ↦
            let (json, dec, head) = key_id-header h kid known in
            let (k, found, made) =
              with_key-cases h p s (find_key gate.lib gate.web kid kv) c
                (ground (arith, known, e)) in
            claims_of-IsVouched text h p s kid json kv k c email parts dec head
              (find_key-IsTeamKey gate.lib gate.web kv kid k found) made named
      ]

  -- x
  pub require_approver-IsVouched :
      (token kv : Option Str) (email : Str)
      → (require_approver gate now token kv).0 ≡ some email
      → IsVouched gate now token kv email
  unfolding require_approver verify_access_jwt
  require_approver-IsVouched none kv email e = absurd (ground arith)
  require_approver-IsVouched (some text) kv email e =
      let (c, accepted, named) =
        bind_some (verify_parts gate now (split b'.' text) kv).0 (λ c. c.email) email e in
      verify_parts-IsVouched text (split b'.' text) kv c email refl accepted named
