-- ===== src/Gateway/Ingress/Cached.antt =====
-- What the filters of gateway/src/main.rs let through, and what they change.
use lets_embed.Prelude.{ℕ, ◌≡◌, refl, false, Option, none, some, List, arith}
use lets_embed.Prelude.Results.{Result, ok, err}
use lets_embed.Prelude.Text.{Str, codes, str_eq, str_key}
use lets_embed.Gateway.Jwt.{Lib, verify}
use lets_embed.Gateway.Jwt.Checked.{IsChecked, verify-IsChecked}
use lets_embed.Gateway.Ingress.{
  forwarded, of_verify, request_filter, media_type, is_content_hashed, cache_control, Headers,
  with_cache, cached_as, response_filter,
}

of_verify-ok : (r : Result {0} Unit) → of_verify r ≡ forwarded → (u : Unit {0}) × (r ≡ ok u)
of_verify-ok (ok u) h = (u, refl)
of_verify-ok (err e) h = absurd (ground arith)

module _ {ℓ} {K : Type ℓ} (lib : Lib K) (team : Option Str) (keys : Option (List (Str × K)))
    (policy_aud : Str) (now : ℕ) where
  -- A request that the filter lets through has a token with three parts, the algorithm RS256, a
  -- known key with its name, a signature of its first two parts by that key, and claims for the
  -- expected application, issued by the team, that have not run out.
  pub request_filter-IsChecked :
      (header : Option Str)
      → request_filter lib team keys policy_aud now header ≡ forwarded
      → (jwt : Str) × (header ≡ some jwt) × IsChecked lib team keys jwt policy_aud now
  unfolding request_filter
  request_filter-IsChecked none h = absurd (ground arith)
  request_filter-IsChecked (some jwt) h =
      let (u, e) = of_verify-ok (verify lib team keys jwt policy_aud now) h in
      (jwt, refl, verify-IsChecked lib team keys jwt policy_aud now u e)

with_cache-frame :
    (o : Option Str) (headers : Headers) (name : Str)
    → str_eq (codes "cache-control") name ≡ false
    → with_cache o headers name ≡ headers name
with_cache-frame none headers name h = refl
with_cache-frame (some v) headers name h = rw h refl

cached_as-frame :
    (o : Option Str) (path : Str) (headers : Headers) (name : Str)
    → str_eq (codes "cache-control") name ≡ false
    → cached_as o path headers name ≡ headers name
cached_as-frame none path headers name h = refl
cached_as-frame (some v) path headers name h =
    with_cache-frame (cache_control (is_content_hashed path) (media_type v)) headers name h

-- The filter of responses changes no header but `cache-control`.
pub response_filter-frame :
    (path : Str) (headers : Headers) (name : Str)
    → str_eq (codes "cache-control") name ≡ false
    → response_filter path headers name ≡ headers name
unfolding response_filter
response_filter-frame path headers name h =
    cached_as-frame (headers (codes "content-type")) path headers name h
