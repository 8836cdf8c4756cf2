-- ===== src/Gateway/Ingress.antt =====
-- The filters of `Ingress` in gateway/src/main.rs.
pub mod Cached
use lets_embed.Prelude.{
  ℕ, Bool, true, false, not, ◌&&◌, ◌||◌, Option, none, some, List, [], ◌∷◌, ◌++◌, all, length, leb,
  ◌==◌, and_then, Table, put, if◌then◌else◌,
}
use mathlib.Core.List.{reverse}
use lets_embed.Prelude.Results.{Result, ok, err}
use lets_embed.Prelude.Split.{split, starts_with}
use lets_embed.Prelude.Text.{Str, codes, str_eq, str_key, trim, in_range, to_lowercase}
use lets_embed.Gateway.Jwt.{Lib, verify}

-- What `request_filter` makes of a request: it goes on, it ends without an answer of the upstream,
-- or it fails with a status.
pub data Filtered : Type 0 where
  forwarded ended : Filtered
  failed : ℕ → Filtered

abbrev pub of_verify : Result {0} Unit → Filtered
of_verify (ok _) = forwarded
of_verify (err e) = failed 403

-- `request_filter`, from the header `Cf-Access-Jwt-Assertion`.
unfoldable pub request_filter {ℓ} :
    {K : Type ℓ} → Lib K → Option Str → Option (List (Str × K)) → Str → ℕ → Option Str → Filtered
request_filter lib team keys policy_aud now none = ended
request_filter lib team keys policy_aud now (some jwt) =
    of_verify (verify lib team keys jwt policy_aud now)

abbrev first_or_empty : List Str → Str
first_or_empty [] = []
first_or_empty (s ∷ l) = s

-- The media type of a response, without its parameters.
unfoldable pub media_type : Str → Str
media_type v = to_lowercase (trim (first_or_empty (split b';' v)))

abbrev is_hash_char : ℕ → Bool
is_hash_char c =
    in_range b'0' b'9' c || in_range b'A' b'Z' c || in_range b'a' b'z' c || c == b'-' || c == b'_'

abbrev before_last : List Str → Option Str
before_last (x ∷ y ∷ l) = some y
before_last _ = none

abbrev is_hash : Option Str → Bool
is_hash none = false
is_hash (some s) = leb 8 (length s) && all is_hash_char s

-- `is_content_hashed`: the last piece of the path has at least three parts, and the last part but
-- one is a hash.
unfoldable pub is_content_hashed : Str → Bool
is_content_hashed path =
    let parts = split b'.' (first_or_empty (reverse (split b'/' path))) in
    leb 3 (length parts) && is_hash (before_last (reverse parts))

abbrev pub immutable : Str
immutable = codes "public, max-age=31536000, immutable"

abbrev pub revalidated_page : Str
revalidated_page = codes "no-cache, must-revalidate, s-maxage=30, stale-while-revalidate=60"

abbrev pub revalidated_code : Str
revalidated_code =
    codes "public, max-age=0, s-maxage=300, stale-while-revalidate=60, must-revalidate"

-- The `match` on the media type.
unfoldable pub cache_control : Bool → Str → Option Str
cache_control is_hashed t =
    if is_hashed
    then some immutable
    else if starts_with (codes "image/") t || starts_with (codes "font/") t
    then some immutable
    else if str_eq t (codes "text/html")
    then some revalidated_page
    else if str_eq t (codes "application/javascript")
        || str_eq t (codes "text/javascript")
        || str_eq t (codes "text/css")
        || str_eq t (codes "application/wasm")
    then some revalidated_code
    else none

abbrev pub Headers : Type 0
Headers = Table Str Str

abbrev pub with_cache : Option Str → Headers → Headers
with_cache none headers = headers
with_cache (some v) headers = put (codes "cache-control") v headers

abbrev pub cached_as : Option Str → Str → Headers → Headers
cached_as none path headers = headers
cached_as (some v) path headers =
    with_cache (cache_control (is_content_hashed path) (media_type v)) headers

-- `response_filter`, for header values that are text.
unfoldable pub response_filter : Str → Headers → Headers
response_filter path headers = cached_as (headers (codes "content-type")) path headers
