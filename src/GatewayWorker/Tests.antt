-- ===== src/GatewayWorker/Tests.antt =====
-- Runs of the gateway worker.
use lets_embed.Prelude.{◌≡◌, refl, true, none, some, List, [], ◌∷◌, ◌++◌}
use lets_embed.Prelude.Text.{Str, codes, str_eq, strip_prefix, to_lowercase, lower, trim}
use lets_embed.Prelude.Utf8.{lossy_from}
use lets_embed.Prelude.Split.{split, join, split_once}
use lets_embed.Session.{
  Codec, SessionClaims, is_eth_address, is_valid_principal, checked_claims, jwt_verify,
}
use lets_embed.Account.Wire.{ChargeReq, image}
use lets_embed.Account.Storage.{untouched}
use lets_embed.Account.Charge.{
  charge, charge_open, charge_new, settled, is_repeat, recorded, source_of, rolled, drawn,
}
use lets_embed.Account.Decide.{is_recent_view, decide_charge, should_roll, view_cost}
use lets_embed.Account.Status.{ensure_init, plan_active}
use lets_embed.Config.{plan}
use lets_embed.Prelude.Int.{◌+ℤ◌}
use lets_embed.Prelude.Words.{wrap_i64}
use lets_embed.GatewayWorker.Form.{form_field}
use lets_embed.GatewayWorker.Form.Encoded.{form_text, first_value, form_field-form_text}
use lets_embed.GatewayWorker.Proxy.{
  get, Request, Outgoing, header, kept_cookies, is_hop_by_hop, sanitize_cookie, proxy,
  image_upstream,
}
use lets_embed.GatewayWorker.Proxy.Headers.{AllLower, proxy-headers}
use lets_embed.GatewayWorker.Metering.{
  to_upstream, answered, Accounts, put_account, Env, session_of, delivered, stopped, media_charge,
  search_charge, metered, signed_in, gateway,
}
use lets_embed.GatewayWorker.Metering.Charged.{IsMetered, gateway-IsMetered}
use lets_embed.GatewayWorker.Metering.Due.{metered_as, IsDue}
use lets_embed.GatewayWorker.Metering.Unslashed.{gateway_unslashed}

abbrev fields : List (Str × Str)
fields =
    (codes "page", codes "2") ∷ (codes "q", codes "red & blue/50%") ∷ (codes "q", codes "x") ∷ []

form_field-form_text_example :
    form_field (form_text fields) (codes "q") ≡ first_value (codes "q") fields
form_field-form_text_example =
    unfold lossy_from in
    form_field-form_text (codes "q") fields
      ((refl, refl, refl), ((refl, refl, refl), ((refl, refl, refl), tt)))

found : first_value (codes "q") fields ≡ some (codes "red & blue/50%")
unfolding first_value str_eq
found = refl

abbrev address : Str
address = codes "0xd8da6bf26964af9d7eed9e03e53415d37aa96045"

abbrev claims : SessionClaims
claims = record { sub = address; iat = 1000; exp = 2000 }

-- A token is its payload twice, and every payload is of the same session.
abbrev lib : Codec
lib = record {
  b64_encode = λ s. s;
  b64_decode = λ s. some s;
  hmac = λ secret text. text;
  to_json = λ c. [];
  of_json = λ s. some claims;
}

abbrev env : Env
env = record {
  lib = lib;
  decode58 = λ s. none;
  sha256_hex = λ s. s;
  jwt_secret = codes "secret";
  client_id = codes "id";
  client_secret = codes "token";
  now = 1500;
  call = answered;
}

abbrev view : Request
view = record {
  method = get;
  path = codes "/images/a.webp";
  query = none;
  headers =
      (codes "cookie", some (codes "ue_session=a.a; theme=dark"))
      ∷ (codes "host", some (codes "example.com"))
      ∷ (codes "cf-access-client-id", some (codes "forged"))
      ∷ [];
  session = some (codes "a.a");
  body = [];
}

abbrev accounts : Accounts
accounts sub = untouched

abbrev charged : ChargeReq
charged = record { path = codes "/images/a.webp"; kind = image }

sent_cookie : sanitize_cookie view.headers ≡ some (codes "theme=dark")
unfolding sanitize_cookie header kept_cookies split join trim str_eq split_once
sent_cookie = refl

headers_lower : AllLower view.headers
unfolding to_lowercase lower
headers_lower = (refl, (refl, (refl, tt)))

proxy-headers_example :
    ((name : Str)
      → is_hop_by_hop name ≡ true
      → (proxy (codes "id") (codes "token") view).headers name ≡ none)
    × ((proxy (codes "id") (codes "token") view).headers (codes "cookie")
        ≡ sanitize_cookie view.headers)
    × ((proxy (codes "id") (codes "token") view).headers (codes "cf-access-client-id")
        ≡ some (codes "id"))
    × ((proxy (codes "id") (codes "token") view).headers (codes "cf-access-client-secret")
        ≡ some (codes "token"))
proxy-headers_example = proxy-headers (codes "id") (codes "token") view headers_lower

signed : session_of env view ≡ some claims
unfolding jwt_verify split_once str_eq checked_claims is_valid_principal is_eth_address strip_prefix
signed = refl

abbrev unslashed : Request
unslashed = record view { path = codes "/images.example.org/x"; query = some (codes "s=1") }

unslashed_signed : session_of env unslashed ≡ some claims
unfolding jwt_verify split_once str_eq checked_claims is_valid_principal is_eth_address strip_prefix
unslashed_signed = refl

gateway_unslashed_example :
    (o : Outgoing) × (gateway env unslashed accounts ≡ (to_upstream o, accounts))
    × (o.target ≡ image_upstream ++ codes ".example.org/x?s=1")
    × (o.headers (codes "cf-access-client-secret") ≡ some (codes "token"))
gateway_unslashed_example =
    gateway_unslashed env (codes ".example.org/x") unslashed accounts claims
      (record { method = refl; path = refl }) (unfold strip_prefix in refl) unslashed_signed

forwarded : gateway env view accounts ≡ (
  to_upstream (proxy (codes "id") (codes "token") view),
  put_account address (charge 1500 charged untouched).1 accounts,
)
unfolding gateway signed_in metered delivered stopped media_charge search_charge jwt_verify
    split_once str_eq checked_claims is_valid_principal is_eth_address strip_prefix charge
    charge_open charge_new settled is_repeat is_recent_view recorded source_of rolled decide_charge
    plan_active drawn ensure_init plan wrap_i64 ◌+ℤ◌ should_roll view_cost
forwarded = refl

gateway-IsMetered_example :
    (c : SessionClaims) × (session_of env view ≡ some c)
    × IsDue (λ s. s) view (metered_as (λ s. s) view)
    × IsMetered env c.sub
        (metered_as (λ s. s) view)
        accounts
        (put_account address (charge 1500 charged untouched).1 accounts)
    × (proxy (codes "id") (codes "token") view ≡ proxy (codes "id") (codes "token") view)
gateway-IsMetered_example =
    gateway-IsMetered env view accounts
      (put_account address (charge 1500 charged untouched).1 accounts)
      (proxy (codes "id") (codes "token") view) forwarded
