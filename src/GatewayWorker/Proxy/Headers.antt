-- ===== src/GatewayWorker/Proxy/Headers.antt =====
-- The headers that `proxy` of gateway_worker/src/lib.rs sends on.
use lets_embed.Prelude.{
  ◌≡◌, refl, ap, ◌∙◌, Bool, true, false, Option, none, some, [], ◌∷◌, arith, Table, empty, inl, inr,
  Bool-cases, if◌then◌else◌,
}
use lets_embed.Prelude.Text.{Str, codes, str_key, str_eq, str_eq_iff, to_lowercase, lower}
use lets_embed.GatewayWorker.Proxy.{
  Headers, Request, is_hop_by_hop, is_dropped, sanitize_cookie, copied, set_some, with_cookie,
  proxy,
}

-- The names are in lower case, as the server reads them.
abbrev pub AllLower : Headers → Type 0
AllLower [] = Unit
AllLower ((name, v) ∷ hs) = (to_lowercase name ≡ name) × AllLower hs

-- Setting another name changes nothing.
set_other :
    (k name : Str) (v : Option Str) (t : Table Str Str)
    → to_lowercase k ≡ k
    → str_eq k name ≡ false
    → set_some k v t name ≡ t name
set_other k name none t low d = refl
set_other k name (some v) t low d = rw (low, d) refl

-- A name that is skipped is not set.
copied_skipped :
    (skipped : Str → Bool) (name : Str) (hs : Headers) (t : Table Str Str)
    → AllLower hs
    → skipped name ≡ true
    → copied skipped hs t name ≡ t name
unfolding copied
copied_skipped skipped name [] t h e = refl
copied_skipped skipped name ((k, v) ∷ hs) t h e =
    copied_skipped skipped name hs (if skipped k then t else set_some k v t) h.1 e
    ∙ elim (Bool-cases (str_eq k name)) [
      | inl same ↦ rw (ap skipped ((str_eq_iff k name).0 same) ∙ e) refl
      | inr other ↦ elim (Bool-cases (skipped k)) [
        | inl s ↦ rw s refl
        | inr s ↦ rw s (set_other k name v t h.0 other)
      ]
    ]

other_name :
    (k name : Str) → is_hop_by_hop k ≡ false → is_hop_by_hop name ≡ true → str_eq k name ≡ false
other_name k name h e = elim (Bool-cases (str_eq k name)) [
  | inl same ↦ absurd (ground (arith, ap is_hop_by_hop ((str_eq_iff k name).0 same)))
  | inr other ↦ other
]

hop_by_hop_dropped : (name : Str) → is_hop_by_hop name ≡ true → is_dropped name ≡ true
hop_by_hop_dropped name e = rw e refl

cookie_missed :
    (o : Option Str) (t : Table Str Str) (name : Str)
    → str_eq (codes "cookie") name ≡ false
    → with_cookie o t name ≡ t name
unfolding to_lowercase lower
cookie_missed none t name e = refl
cookie_missed (some c) t name e = rw e refl

cookie_set :
    (o : Option Str) (t : Table Str Str)
    → t (codes "cookie") ≡ none
    → with_cookie o t (codes "cookie") ≡ o
unfolding to_lowercase lower str_eq
cookie_set none t e = e
cookie_set (some c) t e = refl

module _ (client_id client_secret : Str) (r : Request) where
  abbrev sent : Str → Option Str
  sent name = (proxy client_id client_secret r).headers name

  -- If the names of the incoming headers are in lower case, the request to the upstream has no
  -- hop-by-hop header, its cookie header is the sanitized one, and the service token is that of
  -- the worker, whatever came in.
  pub proxy-headers :
      AllLower r.headers
      → ((name : Str) → is_hop_by_hop name ≡ true → sent name ≡ none)
        × (sent (codes "cookie") ≡ sanitize_cookie r.headers)
        × (sent (codes "cf-access-client-id") ≡ some client_id)
        × (sent (codes "cf-access-client-secret") ≡ some client_secret)
  unfolding proxy str_eq to_lowercase lower is_hop_by_hop
  proxy-headers h = (
    λ name e.
        rw
          (
            other_name (codes "cf-access-client-secret") name refl e,
            other_name (codes "cf-access-client-id") name refl e,
          )
          (cookie_missed (sanitize_cookie r.headers) _ name
              (other_name (codes "cookie") name refl e)
            ∙ copied_skipped is_dropped name r.headers empty h (hop_by_hop_dropped name e)),
    cookie_set (sanitize_cookie r.headers) _
        (copied_skipped is_dropped (codes "cookie") r.headers empty h refl),
    refl,
    refl,
  )
