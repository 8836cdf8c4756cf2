-- ===== src/Account/Fetch.antt =====
-- `UserAccount::fetch` of user_worker/src/account_do.rs: the route of a request. The bodies are
-- decoded by serde, which is a parameter.
use lets_embed.Prelude.{ℕ, Option, none, some, if◌then◌else◌}
use lets_embed.Prelude.Text.{Str, codes, str_eq}
use lets_embed.Account.Wire.{
  ChargeReq, CreditReq, InitReq, SubscribeReq, BanReq, Reply, error_reply,
}
use lets_embed.Account.Storage.{Storage}
use lets_embed.Account.Object.{
  Event, on_init, on_charge, on_credit, on_status, on_subscribe, on_unsubscribe, on_ban, handle,
}

pub data Method : Type 0 where
  get post other_method : Method

-- `req.json()` at each request type; `none` is a body that does not decode.
pub record Decode (Body : Type 0) : Type 0 where
  pub init_req : Body → Option InitReq
  pub charge_req : Body → Option ChargeReq
  pub credit_req : Body → Option CreditReq
  pub subscribe_req : Body → Option SubscribeReq
  pub ban_req : Body → Option BanReq

pub data Route : Type 0 where
  to_event : Event → Route
  bad_body : Route
  not_found : Route

abbrev decoded : {A : Type 0} → Option A → (A → Event) → Route
decoded none f = bad_body
decoded (some a) f = to_event (f a)

module _ {Body : Type 0} (d : Decode Body) where
  unfoldable pub route : Method → Str → Body → Route
  route post path body =
      if str_eq path (codes "/init")
      then decoded (d.init_req body) on_init
      else if str_eq path (codes "/charge")
      then decoded (d.charge_req body) on_charge
      else if str_eq path (codes "/credit")
      then decoded (d.credit_req body) on_credit
      else if str_eq path (codes "/subscribe")
      then decoded (d.subscribe_req body) on_subscribe
      else if str_eq path (codes "/unsubscribe")
      then to_event on_unsubscribe
      else if str_eq path (codes "/ban")
      then decoded (d.ban_req body) on_ban
      else not_found
  route get path body = if str_eq path (codes "/status") then to_event on_status else not_found
  route other_method path body = not_found

  -- The reply, `none` for an error that the runtime reports, and the storage after the request.
  unfoldable pub fetch : ℕ → ℕ → Method → Str → Body → Storage → Option Reply × Storage
  fetch now later method path body s = elim (route method path body) [
    | to_event e ↦ let (reply, s') = handle now later e s in (some reply, s')
    | bad_body ↦ (none, s)
    | not_found ↦ (some (error_reply (codes "not found") 404), s)
  ]
