-- ===== src/GatewayWorker/Proxy.antt =====
-- What the gateway worker sends on: `forward_user`, `proxy` and their helpers in
-- gateway_worker/src/lib.rs. Names of headers are in lower case; `none` is a value that is not
-- visible ASCII, which `to_str` refuses.
pub mod Headers
use lets_embed.Prelude.{
  ℕ, Bool, true, false, not, ◌&&◌, ◌||◌, any, Option, none, some, unwrap_or, List, [], ◌∷◌, ◌++◌,
  map, Table, empty, put, if◌then◌else◌, and_then,
}
use lets_embed.Prelude.Options.{◌>>=◌, ◌>>◌}
use lets_embed.Prelude.Split.{split, join, split_once}
use lets_embed.Prelude.Text.{Str, codes, str_key, str_eq, strip_prefix, trim, to_lowercase}

pub data Method : Type 0 where
  get head post other_method : Method

abbrev pub Headers : Type 0
Headers = List (Str × Option Str)

-- A request that comes in. `session` is the value of the session cookie.
pub record Request : Type 0 where
  pub method : Method
  pub path : Str
  pub query : Option Str
  pub headers : Headers
  pub session : Option Str
  pub body : Str

-- A request that goes out.
pub record Outgoing : Type 0 where
  pub target : Str
  pub method : Method
  pub headers : Table Str Str
  pub body : Option Str

abbrev pub path_and_query : Request → Str
path_and_query r = r.path ++ (elim r.query [ none ↦ [] | some q ↦ b'?' ∷ q ])

abbrev pub api_upstream : Str
api_upstream = codes "https://lets-embed-api.louisfly.icu"

abbrev pub image_upstream : Str
image_upstream = codes "https://lets-embed-image.louisfly.icu"

abbrev pub video_upstream : Str
video_upstream = codes "https://lets-embed-video.louisfly.icu"

abbrev pub hop_by_hop : List Str
hop_by_hop =
    codes "connection"
    ∷ codes "keep-alive"
    ∷ codes "proxy-authenticate"
    ∷ codes "proxy-authorization"
    ∷ codes "te"
    ∷ codes "trailers"
    ∷ codes "transfer-encoding"
    ∷ codes "upgrade"
    ∷ codes "host"
    ∷ []

unfoldable pub is_hop_by_hop : Str → Bool
is_hop_by_hop name = any (str_eq name) hop_by_hop

-- The cookies of the gateway: the session, and those of the flow that was there before.
abbrev own_cookies : List Str
own_cookies = codes "ue_session" ∷ codes "gw_token" ∷ codes "gw_app" ∷ []

abbrev cookie_name : Str → Str
cookie_name c = elim (split_once b'=' c) [ none ↦ c | some (name, value) ↦ name ]

abbrev pub is_own_cookie : Str → Bool
is_own_cookie c = any (str_eq (cookie_name c)) own_cookies

unfoldable pub kept_cookies : List Str → List Str
kept_cookies [] = []
kept_cookies (c ∷ cs) = let rest = kept_cookies cs in if is_own_cookie c then rest else c ∷ rest

abbrev joined : List Str → Option Str
joined [] = none
joined (c ∷ cs) = some (join (codes "; ") (c ∷ cs))

-- `HeaderMap::get`, and `to_str`.
unfoldable pub header : Str → Headers → Option Str
header name [] = none
header name ((k, v) ∷ hs) = let rest = header name hs in if str_eq k name then v else rest

unfoldable pub sanitize_cookie : Headers → Option Str
sanitize_cookie hs = do
  raw ← header (codes "cookie") hs
  joined (kept_cookies (map trim (split b';' raw)))

-- `Headers::set`, whose names ignore case.
abbrev pub set : Str → Str → Table Str Str → Table Str Str
set name v t = put (to_lowercase name) v t

abbrev pub set_some : Str → Option Str → Table Str Str → Table Str Str
set_some name none t = t
set_some name (some v) t = set name v t

-- The loop over the headers, with those that `skipped` names left out.
unfoldable pub copied : (Str → Bool) → Headers → Table Str Str → Table Str Str
copied skipped [] t = t
copied skipped ((name, v) ∷ hs) t =
    copied skipped hs (if skipped name then t else set_some name v t)

abbrev sends_body : Method → Str → Option Str
sends_body get body = none
sends_body head body = none
sends_body m [] = none
sends_body m (b ∷ body) = some (b ∷ body)

-- `forward_user`, up to the call.
unfoldable pub forward_user : Request → Outgoing
forward_user r = record {
  target = codes "https://user-worker" ++ path_and_query r;
  method = r.method;
  headers = copied is_hop_by_hop r.headers empty;
  body = sends_body r.method r.body;
}

-- Where a request is sent.
unfoldable pub upstream : Str → Str
upstream pq = elim (strip_prefix (codes "/images") pq) [
  | some rest ↦ image_upstream ++ rest
  | none ↦ elim (strip_prefix (codes "/videos") pq) [
    | some rest ↦ video_upstream ++ rest
    | none ↦ api_upstream ++ pq
  ]
]

abbrev pub is_dropped : Str → Bool
is_dropped name = is_hop_by_hop name || str_eq name (codes "cookie")

abbrev pub with_cookie : Option Str → Table Str Str → Table Str Str
with_cookie none t = t
with_cookie (some c) t = set (codes "cookie") c t

-- `proxy`, up to the call.
unfoldable pub proxy : Str → Str → Request → Outgoing
proxy client_id client_secret r = record {
  target = upstream (path_and_query r);
  method = r.method;
  headers = set (codes "CF-Access-Client-Secret") client_secret (
      set (codes "CF-Access-Client-Id") client_id
        (with_cookie (sanitize_cookie r.headers) (copied is_dropped r.headers empty)));
  body = sends_body r.method r.body;
}
