-- ===== src/Admin/Access/Keys.antt =====
-- Where the key of an accepted token comes from.
use lets_embed.Prelude.{
  ◌≡◌, refl, ◌∙◌, ◌⊎◌, inl, inr, Bool, true, false, Option, none, some, List, find, arith,
  Option-cases, Bool-cases,
}
use lets_embed.Prelude.Text.{Str}
use lets_embed.Admin.Access.{
  Jwk, AccessLib, Web, cached_jwks, fetch_jwks, load_jwks, has_kid, found_in, or_fresh, find_key,
}

-- A key set that was read from the store, or fetched from the team's certificates.
pub record KeySet (lib : AccessLib) (web : Web) (kv : Option Str) (keys : List Jwk) : Type 0 where
  pub text : Str
  pub origin : (kv ≡ some text) ⊎ ((force : Bool) × (web.fetched force ≡ some text))
  pub parsed : lib.parse_jwks text ≡ some keys

-- A key of such a set, the first with its name.
pub record IsTeamKey (lib : AccessLib) (web : Web) (kv : Option Str) (kid : Str) (k : Jwk)
    : Type 0 where
  pub keys : List Jwk
  pub set : KeySet lib web kv keys
  pub found : find (has_kid lib kid) keys ≡ some k

module _ (lib : AccessLib) (web : Web) where
  fetch_jwks-KeySet :
      (kv kv1 : Option Str) (force : Bool) (keys : List Jwk)
      → (fetch_jwks lib web force kv1).0 ≡ some keys
      → KeySet lib web kv keys
  unfolding fetch_jwks
  fetch_jwks-KeySet kv kv1 force keys h = elim (Option-cases (web.fetched force)) [
    | inl e ↦ absurd (ground (arith, e))
    | inr (text, e) ↦ elim (Option-cases (lib.parse_jwks text)) [
      | inl e' ↦ absurd (ground (arith, e, e'))
      | inr (ks, e') ↦ record {
        text = text;
        origin = inr (force, e);
        parsed = ground (arith, e, e');
      }
    ]
  ]

  cached_jwks-KeySet :
      (kv : Option Str) (keys : List Jwk)
      → cached_jwks lib web kv ≡ some keys
      → KeySet lib web kv keys
  unfolding cached_jwks
  cached_jwks-KeySet none keys h = absurd (ground arith)
  cached_jwks-KeySet (some text) keys h = record {
    text = text;
    origin = inl refl;
    parsed = ground arith;
  }

  load_jwks-KeySet :
      (kv : Option Str) (keys : List Jwk)
      → (load_jwks lib web false kv).0 ≡ some keys
      → KeySet lib web kv keys
  unfolding load_jwks
  load_jwks-KeySet kv keys h = elim (Option-cases (cached_jwks lib web kv)) [
    | inl e ↦ fetch_jwks-KeySet kv kv false keys (ground (arith, e))
    | inr (ks, e) ↦ cached_jwks-KeySet kv keys (ground (arith, e))
  ]

  load_jwks_fresh :
      (kv kv1 : Option Str) (keys : List Jwk)
      → (load_jwks lib web true kv1).0 ≡ some keys
      → KeySet lib web kv keys
  unfolding load_jwks
  load_jwks_fresh kv kv1 keys h = elim (Bool-cases web.kv_bound) [
    | inl e ↦ fetch_jwks-KeySet kv kv1 true keys (ground (arith, e))
    | inr e ↦ absurd (ground (arith, e))
  ]

  found_in-IsTeamKey :
      (kv : Option Str) (kid : Str) (k : Jwk) (r : Option (List Jwk) × Option Str)
      → ((keys : List Jwk) → r.0 ≡ some keys → KeySet lib web kv keys)
      → (found_in lib kid r).0 ≡ some k
      → IsTeamKey lib web kv kid k
  found_in-IsTeamKey kv kid k (none, kv1) sets h = absurd (ground arith)
  found_in-IsTeamKey kv kid k (some keys, kv1) sets h = record {
    keys = keys;
    set = sets keys refl;
    found = h;
  }

  or_fresh-IsTeamKey :
      (kv : Option Str) (kid : Str) (k : Jwk) (r : Option (List Jwk) × Option Str)
      → ((keys : List Jwk) → r.0 ≡ some keys → KeySet lib web kv keys)
      → (or_fresh lib web kid r).0 ≡ some k
      → IsTeamKey lib web kv kid k
  or_fresh-IsTeamKey kv kid k (none, kv1) sets h = absurd (ground arith)
  or_fresh-IsTeamKey kv kid k (some keys, kv1) sets h =
      elim (Option-cases (find (has_kid lib kid) keys)) [
        | inl e ↦
            found_in-IsTeamKey kv kid k (load_jwks lib web true kv1) (load_jwks_fresh kv kv1)
              (ground (arith, e, h))
        | inr (k', e) ↦ record { keys = keys; set = sets keys refl; found = e ∙ ground (arith, e) }
      ]

  pub find_key-IsTeamKey :
      (kv : Option Str) (kid : Str) (k : Jwk)
      → (find_key lib web kid kv).0 ≡ some k
      → IsTeamKey lib web kv kid k
  unfolding find_key
  find_key-IsTeamKey kv kid k h =
      or_fresh-IsTeamKey kv kid k (load_jwks lib web false kv) (load_jwks-KeySet kv) h
