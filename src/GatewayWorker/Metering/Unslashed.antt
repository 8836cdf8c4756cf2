-- ===== src/GatewayWorker/Metering/Unslashed.antt =====
-- Paths that start with `/images` without a slash behind it: `gateway` of gateway_worker/src/lib.rs
-- tests for `/images/`, and `proxy` strips `/images`.
use mathlib.Core.List.{append-nil}
use lets_embed.Prelude.{◌≡◌, refl, ◌∙◌, false, Option, none, some, ◌∷◌, ◌++◌}
use lets_embed.Prelude.Split.{starts_with}
use lets_embed.Prelude.Text.{Str, codes, str_eq, strip_prefix, to_lowercase, lower}
use lets_embed.Session.{SessionClaims}
use lets_embed.GatewayWorker.Proxy.{
  get, Request, Outgoing, path_and_query, image_upstream, upstream, proxy,
}
use lets_embed.GatewayWorker.Metering.{
  to_upstream, Accounts, Env, media_charge, search_charge, metered, session_of, is_user_path,
  signed_in, gateway,
}
use lets_embed.GatewayWorker.Metering.Charged.{gateway-signed_in}

-- A `GET` of `/images`, then `rest`, with any query, headers, cookies and body.
pub record IsImagesRequest (rest : Str) (r : Request) : Type 0 where
  pub method : r.method ≡ get
  pub path : r.path ≡ codes "/images" ++ rest

-- The rest of the path and the query.
abbrev pub with_query : Str → Option Str → Str
with_query rest none = rest
with_query rest (some q) = rest ++ (b'?' ∷ q)

module _ (rest : Str) (no_slash : starts_with (codes "/") rest ≡ false) (r : Request)
    (images : IsImagesRequest rest r) where
  not_user : is_user_path r.path ≡ false
  unfolding strip_prefix str_eq
  not_user = rw images.path refl

  not_media : media_charge r ≡ none
  unfolding media_charge strip_prefix
  not_media = rw (images.method, images.path, no_slash) refl

  not_search : (hash : Str → Str) → search_charge hash r ≡ none
  unfolding search_charge
  not_search hash = rw images.method refl

  continued_with :
      (q : Option Str) → r.query ≡ q → path_and_query r ≡ codes "/images" ++ with_query rest q
  continued_with none e = rw (images.path, e) (append-nil (codes "/images" ++ rest))
  continued_with (some q) e = rw (images.path, e) refl

  host_continued :
      (env : Env)
      → (proxy env.client_id env.client_secret r).target ≡ image_upstream ++ with_query rest r.query
  unfolding proxy upstream strip_prefix
  host_continued env = rw (continued_with r.query refl) refl

-- A GET of `/images` followed by a text that does not start with a slash, with a session and any
-- query, headers and body, changes no account and is sent, with the service token, to the URL of
-- the image upstream with that text and the query put behind it.
pub gateway_unslashed :
    (env : Env) (rest : Str) (r : Request) (w : Accounts) (c : SessionClaims)
    → IsImagesRequest rest r
    → starts_with (codes "/") rest ≡ false
    → session_of env r ≡ some c
    → (o : Outgoing) × (gateway env r w ≡ (to_upstream o, w))
      × (o.target ≡ image_upstream ++ with_query rest r.query)
      × (o.headers (codes "cf-access-client-secret") ≡ some env.client_secret)
unfolding signed_in metered str_eq to_lowercase lower proxy
gateway_unslashed env rest r w c images no_slash e = (
  proxy env.client_id env.client_secret r,
  gateway-signed_in env r w c (not_user rest no_slash r images) e
      ∙ rw (not_media rest no_slash r images, not_search rest no_slash r images env.sha256_hex)
          refl,
  host_continued rest no_slash r images env,
  refl,
)
