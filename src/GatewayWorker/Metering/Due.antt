-- ===== src/GatewayWorker/Metering/Due.antt =====
-- What a request to `gateway` of gateway_worker/src/lib.rs has to pay for.
use lets_embed.Prelude.{◌≡◌, refl, Option, none, some, ◌++◌, take}
use lets_embed.Prelude.Text.{Str, codes, str_eq, strip_prefix}
use lets_embed.Account.Wire.{ChargeReq, image, video, search, embed_search}
use lets_embed.GatewayWorker.Form.{form_field}
use lets_embed.GatewayWorker.Proxy.{get, post, Request}
use lets_embed.GatewayWorker.Metering.{media_charge, search_charge}

-- What a request has to pay for, if anything.
abbrev pub first_of : Option ChargeReq → Option ChargeReq → Option ChargeReq
first_of none other = other
first_of (some req) other = some req

unfoldable pub metered_as : (Str → Str) → Request → Option ChargeReq
metered_as sha256_hex r = first_of (media_charge r) (search_charge sha256_hex r)

-- Each `GET` of an image or a video is due, and each `POST` of a search with its field.
pub record IsDue (sha256_hex : Str → Str) (r : Request) (due : Option ChargeReq) : Type 0 where
  pub images_due :
      (rest : Str)
      → r.method ≡ get
      → r.path ≡ codes "/images/" ++ rest
      → due ≡ some (record { path = codes "/images/" ++ rest; kind = image })
  pub videos_due :
      (rest : Str)
      → r.method ≡ get
      → r.path ≡ codes "/videos/" ++ rest
      → due ≡ some (record { path = codes "/videos/" ++ rest; kind = video })
  pub similar_due :
      (q : Str)
      → r.method ≡ post
      → r.path ≡ codes "/api/search_similar"
      → form_field r.body (codes "q") ≡ some q
      → due ≡ some (record { path = codes "search:sim:" ++ q; kind = embed_search })
  pub by_image_due :
      (img : Str)
      → r.method ≡ post
      → r.path ≡ codes "/api/search_by_image"
      → form_field r.body (codes "image") ≡ some img
      → due
        ≡ some (record { path = codes "search:img:" ++ take 32 (sha256_hex img); kind = search })
  pub by_desc_due :
      (q : Str)
      → r.method ≡ post
      → r.path ≡ codes "/api/search_by_desc"
      → form_field r.body (codes "q") ≡ some q
      → due ≡ some (record { path = codes "search:desc:" ++ q; kind = search })

pub metered_as-IsDue :
    (sha256_hex : Str → Str) (r : Request) → IsDue sha256_hex r (metered_as sha256_hex r)
unfolding metered_as media_charge search_charge strip_prefix str_eq
metered_as-IsDue sha256_hex r = record {
  images_due = λ rest m p. rw (m, p) refl;
  videos_due = λ rest m p. rw (m, p) refl;
  similar_due = λ q m p f. rw (m, p, f) refl;
  by_image_due = λ img m p f. rw (m, p, f) refl;
  by_desc_due = λ q m p f. rw (m, p, f) refl;
}
