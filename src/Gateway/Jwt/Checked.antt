-- ===== src/Gateway/Jwt/Checked.antt =====
-- What a token that `verify` accepts has been checked for.
use lets_embed.Prelude.{
  ℕ, ◌≤◌, ◌≡◌, refl, Bool, true, false, Option, some, List, [], ◌∷◌, ◌++◌, leb, arith,
}
use lets_embed.Prelude.Results.{ok, bind_ok, guard-ok, ok_or-ok, guard}
use lets_embed.Prelude.Split.{split}
use lets_embed.Prelude.Utf8.{from_utf8_lossy}
use lets_embed.Prelude.Text.{Str, codes, str_eq, str_eq_iff}
use lets_embed.Gateway.Jwt.{
  JwtKeyInfo, JwtClaim, Lib, contains, get_key, check_claim, parts_of, verify_parts, verify,
}

pub record IsChecked {ℓ} {K : Type ℓ} (lib : Lib K) (team : Option Str)
    (keys : Option (List (Str × K))) (jwt expected_aud : Str) (now : ℕ) : Type ℓ where
  pub team_name : Str
  pub team_set : team ≡ some team_name
  pub key_list : List (Str × K)
  pub keys_set : keys ≡ some key_list
  pub h : Str
  pub c : Str
  pub s : Str
  pub parts : split b'.' (from_utf8_lossy jwt) ≡ h ∷ c ∷ s ∷ []
  pub header : Str
  pub header_decoded : lib.decode h ≡ some header
  pub info : JwtKeyInfo
  pub info_parsed : lib.parse_info header ≡ some info
  pub algorithm : info.alg ≡ codes "RS256"
  pub key : K
  pub known : get_key lib info.kid key_list ≡ some key
  pub sig : Str
  pub sig_decoded : lib.decode s ≡ some sig
  pub signed : lib.verify_sig key (h ++ (b'.' ∷ c)) sig ≡ true
  pub claim_text : Str
  pub claim_decoded : lib.decode c ≡ some claim_text
  pub claim : JwtClaim
  pub claim_parsed : lib.parse_claim claim_text ≡ some claim
  pub audience : contains claim.aud expected_aud ≡ true
  pub issuer : claim.iss ≡ codes "https://" ++ (team_name ++ codes ".cloudflareaccess.com")
  pub unexpired : now ≤ claim.exp

guard_passed : (passes : Bool) (e : Str) (u : Unit {0}) → guard passes e ≡ ok u → passes ≡ true
guard_passed true e u h = refl
guard_passed false e u h = absurd (ground arith)

le_of_leb : (m n : ℕ) → leb m n ≡ true → m ≤ n
le_of_leb m n h = ground arith

module _ {ℓ} {K : Type ℓ} (lib : Lib K) where
  parts_of-three : (l : List Str) (h c s : Str) → parts_of lib l ≡ ok (h, c, s) → l ≡ h ∷ c ∷ s ∷ []
  parts_of-three [] h c s e = absurd (ground arith)
  parts_of-three (x ∷ []) h c s e = absurd (ground arith)
  parts_of-three (x ∷ y ∷ []) h c s e = absurd (ground arith)
  parts_of-three (x ∷ y ∷ z ∷ w ∷ l) h c s e = absurd (ground arith)
  parts_of-three (x ∷ y ∷ z ∷ []) h c s e = ground arith

  pub verify-IsChecked :
      (team : Option Str) (keys : Option (List (Str × K))) (jwt aud : Str) (now : ℕ) (u : Unit {0})
      → verify lib team keys jwt aud now ≡ ok u
      → IsChecked lib team keys jwt aud now
  unfolding verify verify_parts check_claim
  verify-IsChecked team keys jwt aud now u e0 =
      let (t, e1, r1) = bind_ok _ _ u e0 in
      let (ks, e2, r2) = bind_ok _ _ u r1 in
      let ((h, c, s), e3, r3) = bind_ok _ _ u r2 in
      let (header, e4, r4) = bind_ok _ _ u r3 in
      let (info, e5, r5) = bind_ok _ _ u r4 in
      let (alg, r6) = guard-ok (str_eq info.alg (codes "RS256")) _ _ u r5 in
      let (key, e7, r7) = bind_ok _ _ u r6 in
      let (sig, e8, r8) = bind_ok _ _ u r7 in
      let (signed, r9) = guard-ok (lib.verify_sig key (h ++ (b'.' ∷ c)) sig) _ _ u r8 in
      let (text, e10, r10) = bind_ok _ _ u r9 in
      let (claim, e11, r11) = bind_ok _ _ u r10 in
      let (audience, r12) = guard-ok (contains claim.aud aud) _ _ u r11 in
      let issuer = codes "https://" ++ (t ++ codes ".cloudflareaccess.com") in
      let (iss, r13) = guard-ok (str_eq claim.iss issuer) _ _ u r12 in
      let live = guard_passed (leb now claim.exp) _ u r13 in
      record {
        team_name = t;
        team_set = ok_or-ok team _ t e1;
        key_list = ks;
        keys_set = ok_or-ok keys _ ks e2;
        h = h;
        c = c;
        s = s;
        parts = parts_of-three (split b'.' (from_utf8_lossy jwt)) h c s e3;
        header = header;
        header_decoded = ok_or-ok (lib.decode h) _ header e4;
        info = info;
        info_parsed = ok_or-ok (lib.parse_info header) _ info e5;
        algorithm = (str_eq_iff info.alg (codes "RS256")).0 alg;
        key = key;
        known = ok_or-ok (get_key lib info.kid ks) _ key e7;
        sig = sig;
        sig_decoded = ok_or-ok (lib.decode s) _ sig e8;
        signed = signed;
        claim_text = text;
        claim_decoded = ok_or-ok (lib.decode c) _ text e10;
        claim = claim;
        claim_parsed = ok_or-ok (lib.parse_claim text) _ claim e11;
        audience = audience;
        issuer = (str_eq_iff claim.iss issuer).0 iss;
        unexpired = le_of_leb now claim.exp live;
      }
