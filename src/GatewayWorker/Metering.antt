-- ===== src/GatewayWorker/Metering.antt =====
-- `gateway` of gateway_worker/src/lib.rs, and its `charge_do`, on the account objects of the users.
-- The wire contract of the account object, which this worker repeats, is that of `Account.Wire`.
pub mod Due
pub mod Charged
pub mod Unslashed
use lets_embed.Prelude.{
  ℕ, Bool, true, false, ◌&&◌, ◌||◌, Option, none, some, List, [], ◌∷◌, ◌++◌, take, Table, put, ◌==◌,
  if◌then◌else◌, and_then,
}
use lets_embed.Prelude.Split.{starts_with}
use lets_embed.Prelude.Text.{Str, codes, str_eq}
use lets_embed.Session.{Codec, SessionClaims, jwt_verify}
use lets_embed.Account.Wire.{
  ChargeKind, image, video, search, embed_search, ChargeReq, Reply, charge_reply, balance_reply,
  status_reply, error_reply, empty_reply, panicked,
}
use lets_embed.Account.Storage.{Storage}
use lets_embed.Account.Charge.{charge}
use lets_embed.GatewayWorker.Form.{form_field}
use lets_embed.GatewayWorker.Proxy.{
  Method, get, head, post, other_method, Request, Outgoing, path_and_query, forward_user, proxy,
}

-- The answer, or the request that is sent on.
pub data Answer : Type 0 where
  refused : ℕ → Str → Answer
  login : Str → Answer
  out_of_points : Answer
  out_of_points_json : Answer
  to_user_worker : Outgoing → Answer
  to_upstream : Outgoing → Answer

-- What becomes of the call of the account object.
pub data Call : Type 0 where
  answered lost_before lost_after : Call

-- The account object of each principal.
abbrev pub Accounts : Type 0
Accounts = Str → Storage

abbrev pub put_account : Str → Storage → Accounts → Accounts
put_account sub s w b = if str_eq sub b then s else w b

-- The worker's settings and libraries, and what it meets at a request.
pub record Env : Type 0 where
  pub lib : Codec
  pub decode58 : Str → Option (List ℕ)
  pub sha256_hex : Str → Str
  pub jwt_secret : Str
  pub client_id : Str
  pub client_secret : Str
  pub now : ℕ
  pub call : Call

-- The HTTP status of the reply of the object; a panic fails the call.
abbrev pub status_of : Reply → Option ℕ
status_of (charge_reply r status) = some status
status_of (balance_reply r status) = some status
status_of (status_reply r status) = some status
status_of (error_reply msg status) = some status
status_of empty_reply = some 200
status_of panicked = none

-- The status that the worker sees, and the accounts after the call.
unfoldable pub delivered : Call → Str → Reply × Storage → Accounts → Option ℕ × Accounts
delivered answered sub (reply, s) w = (status_of reply, put_account sub s w)
delivered lost_before sub (reply, s) w = (none, w)
delivered lost_after sub (reply, s) w = (none, put_account sub s w)

-- `charge_do`.
abbrev pub charge_do : Env → Str → ChargeReq → Accounts → Option ℕ × Accounts
charge_do env sub req w = delivered env.call sub (charge env.now req (w sub)) w

-- What stops a request after its charge; every answer but 200 does.
unfoldable pub stopped : Answer → Option ℕ → Option Answer
stopped page none = some (refused 502 (codes "charge failed"))
stopped page (some status) =
    if status == 200
    then none
    else if status == 402
    then some page
    else if status == 403
    then some (refused 403 (codes "account suspended"))
    else some (refused 502 (codes "charge failed"))

abbrev charge_request : Str → ChargeKind → ChargeReq
charge_request path kind = record { path = path; kind = kind }

abbrev keyed : Str → ChargeKind → Option Str → Option ChargeReq
keyed prefix kind none = none
keyed prefix kind (some v) = some (charge_request (prefix ++ v) kind)

-- The charge for a `GET` of an image or a video.
unfoldable pub media_charge : Request → Option ChargeReq
media_charge r = elim r.method [
  | get ↦
      if starts_with (codes "/images/") r.path
      then some (charge_request r.path image)
      else if starts_with (codes "/videos/") r.path
      then some (charge_request r.path video)
      else none
  | _ ↦ none
]

-- The charge for a `POST` of a search.
unfoldable pub search_charge : (Str → Str) → Request → Option ChargeReq
search_charge sha256_hex r = elim r.method [
  | post ↦
      if str_eq r.path (codes "/api/search_similar")
      then keyed (codes "search:sim:") embed_search (form_field r.body (codes "q"))
      else if str_eq r.path (codes "/api/search_by_image")
      then keyed (codes "search:img:") search
          (and_then (form_field r.body (codes "image")) (λ img. some (take 32 (sha256_hex img))))
      else if str_eq r.path (codes "/api/search_by_desc")
      then keyed (codes "search:desc:") search (form_field r.body (codes "q"))
      else none
  | _ ↦ none
]

-- One metering step: what stops the request, and the accounts after it.
unfoldable pub metered : Env → Str → Answer → Option ChargeReq → Accounts → Option Answer × Accounts
metered env sub page none w = (none, w)
metered env sub page (some req) w =
    let (status, w') = charge_do env sub req w in (stopped page status, w')

-- `encode_next`.
unfoldable pub encode_next : Str → Str
encode_next [] = []
encode_next (c ∷ s) =
    (if c == b'%'
      then codes "%25"
      else if c == b'?'
      then codes "%3F"
      else if c == b'#'
      then codes "%23"
      else if c == b'&'
      then codes "%26"
      else c ∷ [])
    ++ encode_next s

abbrev is_get_or_head : Method → Bool
is_get_or_head get = true
is_get_or_head head = true
is_get_or_head _ = false

-- The answer without a session.
unfoldable pub signed_out : Request → Answer
signed_out r =
    if (starts_with (codes "/images/") r.path || starts_with (codes "/videos/") r.path)
      && is_get_or_head r.method
    then refused 401 (codes "unauthorized")
    else login (codes "/user/login?next=" ++ encode_next (path_and_query r))

abbrev pub session_of : Env → Request → Option SessionClaims
session_of env r =
    and_then r.session (λ token. jwt_verify env.decode58 env.lib token env.jwt_secret env.now)

abbrev pub is_user_path : Str → Bool
is_user_path path = str_eq path (codes "/user") || starts_with (codes "/user/") path

-- What follows a metering step.
abbrev pub unless_stopped :
    Option Answer × Accounts → (Accounts → Answer × Accounts) → Answer × Accounts
unless_stopped (some a, w) next = (a, w)
unless_stopped (none, w) next = next w

-- The part of `gateway` behind the session.
unfoldable pub signed_in : Env → Str → Request → Accounts → Answer × Accounts
signed_in env sub r w = unless_stopped (metered env sub out_of_points (media_charge r) w) (λ w1.
    unless_stopped (metered env sub out_of_points_json (search_charge env.sha256_hex r) w1)
      (λ w2. (to_upstream (proxy env.client_id env.client_secret r), w2)))

unfoldable pub gateway : Env → Request → Accounts → Answer × Accounts
gateway env r w =
    if is_user_path r.path
    then (to_user_worker (forward_user r), w)
    else elim (session_of env r) [ none ↦ (signed_out r, w) | some c ↦ signed_in env c.sub r w ]
