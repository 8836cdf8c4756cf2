-- ===== src/Admin/Tests.antt =====
-- Runs of the administration.
use lets_embed.Prelude.{◌≡◌, refl, ◌⊎◌, true, false, none, some, List, [], ◌∷◌}
use lets_embed.Prelude.Int.{pos}
use lets_embed.Prelude.Split.{split}
use lets_embed.Prelude.Text.{Str, codes, str_eq, strip_prefix, trim}
use lets_embed.Session.{is_eth_address, is_valid_principal}
use lets_embed.Account.Storage.{untouched}
use lets_embed.Account.Object.{Tick, on_status, handle, run}
use lets_embed.Account.Object
use lets_embed.Login.Users.{UserRow}
use lets_embed.Login.World
use lets_embed.Siwe.Samples.{crypto}
use lets_embed.GatewayWorker.Proxy.{Request, get}
use lets_embed.GatewayWorker.Metering.{answered, lost_after, refused, signed_in, media_charge}
use lets_embed.GatewayWorker.Metering
use lets_embed.DoClient.{call_do, delivered}
use lets_embed.Admin.Access.{
  AccessClaims, single, Gate, AccessLib, require_approver, verify_access_jwt, verify_parts,
  find_key, load_jwks, cached_jwks, fetch_jwks, is_signed, claims_of, claims_ok, aud_ok,
  trim_slashes,
}
use lets_embed.Admin.Access.Vouched.{IsVouched}
use lets_embed.Admin.Page.{render_admin}
use lets_embed.Admin.Page.Escaped.{markup}
use lets_embed.Admin.Page.Escaped.Rendered.{render_admin-markup}
use lets_embed.Admin.Handlers
use lets_embed.Admin.Handlers.{
  Env, World, CreditForm, BanForm, to_ban, serve, validate_form_address, set_ban, ban_end, flag_of,
  forbidden, redirect,
}
use lets_embed.Admin.Handlers.Gated.{IsForbidden, serve-IsGated}
use lets_embed.Admin.Handlers.Credited.{is_redirect, form_request, submit}
use lets_embed.Admin.Handlers.Credited.Once.{IsOnce, submit-IsOnce}
use lets_embed.Prelude.Words.{InI64}
use lets_embed.Prelude.Int.{◌+ℤ◌}
use lets_embed.Prelude.{arith}
use lets_embed.Account.Storage.{balance_of}
use lets_embed.Admin.Handlers.Suspended.{is_metered, ban_suspends}

abbrev address : Str
address = codes "0xd8da6bf26964af9d7eed9e03e53415d37aa96045"

abbrev row : UserRow
row = record {
  address = address;
  created_at = 1000;
  last_login = 2000;
  plan = none;
  banned = 0;
  solana_address = none;
}

abbrev claims : AccessClaims
claims = record {
  aud = single (codes "panel");
  email = some (codes "a@b.c");
  iss = codes "https://team.example/";
  exp = 2000;
  nbf = some 900;
}

abbrev lib : AccessLib
lib = record {
  b64url = λ s. some s;
  parse_header = λ s. some (record { kid = s; alg = codes "RS256" });
  parse_claims = λ s. some claims;
  parse_jwks = λ s. some (record { kid = s; n = codes "n"; e = codes "e" } ∷ []);
  sha256 = λ s. s;
  rsa_accepts = λ n e digest sig. str_eq sig (codes "s");
}

-- The store holds a key set with a single key, named as its text, and the fetch gives another.
abbrev gate : Gate
gate = record {
  lib = lib;
  web = record {
    kv_bound = true;
    kv_read = true;
    kv_write = true;
    fetched = λ force. some (codes "new");
  };
  team_domain = codes "team.example";
  access_aud = codes "panel";
}

abbrev env : Env
env = record {
  gate = gate;
  decode58 = λ s. none;
  date_text = λ n. codes "a date";
  token = some (codes "new.p.s");
  now = 1000;
  read_ok = true;
  write_ok = true;
  trip = record { call = answered; now = 1000; later = 1000 };
  uuid = codes "11111111";
}

abbrev world : World
world = record { kv = some (codes "old"); users = row ∷ []; accounts = λ a. untouched }

-- The key is not in the stored set, and is found in the fresh one.
approved : (require_approver env.gate env.now env.token world.kv).0 ≡ some (codes "a@b.c")
unfolding require_approver verify_access_jwt verify_parts find_key load_jwks cached_jwks fetch_jwks
    is_signed claims_of claims_ok aud_ok trim_slashes split str_eq
approved = refl

abbrev ban_form : BanForm
ban_form = record { address = address; banned = pos 1 }

serve-IsGated_example :
    ((email : Str) × IsVouched env.gate env.now env.token world.kv email)
    ⊎ IsForbidden world (serve env (to_ban ban_form) world)
serve-IsGated_example = serve-IsGated env (to_ban ban_form) world

plain_date : markup (codes "a date") ≡ []
unfolding markup
plain_date = refl

plain_token : markup (codes "11111111") ≡ []
unfolding markup
plain_token = refl

abbrev bad_row : UserRow
bad_row = record row { address = codes "<script>\"&" }

render_admin-markup_example :
    markup (render_admin env.date_text env.uuid (codes "\"<") (codes "<b>") (bad_row ∷ []) none)
    ≡ markup (render_admin env.date_text env.uuid [] [] (row ∷ []) none)
render_admin-markup_example =
    render_admin-markup env.date_text (λ n. plain_date) env.uuid env.uuid plain_token plain_token
      (codes "\"<") [] (codes "<b>") [] (bad_row ∷ []) (row ∷ []) none none refl refl

abbrev credit_form : CreditForm
credit_form = record {
  address = address;
  points = pos 500;
  reason = codes "gift";
  token = codes "t1";
}

blank : Handlers.Credited.has_token credit_form ≡ true
unfolding trim
blank = refl

-- The first answer is lost on its way, and the form is sent again.
abbrev lossy : Env
lossy = record env { trip = record { call = lost_after; now = 1000; later = 1000 } }

credit_fits : InI64 (balance_of (world.accounts address) +ℤ pos 500)
unfolding ◌+ℤ◌
credit_fits = (omega arith, omega arith)

submit-IsOnce_example :
    IsOnce address
      (form_request credit_form)
      world.accounts
      (submit (lossy ∷ env ∷ []) credit_form world).1.accounts
      (submit (lossy ∷ env ∷ []) credit_form world).0
submit-IsOnce_example = submit-IsOnce credit_form (lossy ∷ env ∷ []) world blank refl credit_fits

redirected : is_redirect (Handlers.ban env ban_form world).0 ≡ true
unfolding Handlers.ban require_approver verify_access_jwt verify_parts find_key load_jwks
    cached_jwks fetch_jwks is_signed claims_of claims_ok aud_ok trim_slashes split str_eq set_ban
    validate_form_address is_valid_principal is_eth_address strip_prefix call_do delivered handle
    Object.ban ban_end
redirected = refl

abbrev worker : Metering.Env
worker = record {
  lib = record {
    b64_encode = λ s. s;
    b64_decode = λ s. some s;
    hmac = λ secret text. text;
    to_json = λ c. [];
    of_json = λ s. none;
  };
  decode58 = λ s. none;
  sha256_hex = λ s. s;
  jwt_secret = codes "secret";
  client_id = codes "id";
  client_secret = codes "token";
  now = 1500;
  call = answered;
}

abbrev view : Request
view = record {
  method = get;
  path = codes "/images/a.webp";
  query = none;
  headers = [];
  session = none;
  body = [];
}

abbrev life : List Tick
life = record { now = 1200; later = 1200; event = on_status } ∷ []

abbrev after_ban : World
after_ban = (Handlers.ban env ban_form world).1

asks_for_ban : flag_of ban_form ≡ true
asks_for_ban = refl

view_metered : is_metered worker.sha256_hex view ≡ true
unfolding media_charge strip_prefix
view_metered = refl

ban_suspends_example :
    (signed_in worker address view (λ a. run life (after_ban.accounts address))).0
    ≡ refused 403 (codes "account suspended")
ban_suspends_example =
    ban_suspends env ban_form world redirected asks_for_ban life refl worker view
      (λ a. run life (after_ban.accounts address)) refl view_metered refl

abbrev login_trip : World.Trip
login_trip = record {
  now = 1500;
  later = 1500;
  nonce_get_ok = true;
  nonce_delete_ok = true;
  lookup_ok = true;
  owner_ok = true;
  write_ok = true;
  constraint = false;
  ban_ok = true;
  init_call = World.answered;
}

abbrev state : World.World
state = record { nonces = λ n. false; users = after_ban.users; accounts = after_ban.accounts }

abbrev login : World.Env Str
login = record {
  lib = worker.lib;
  crypto = crypto;
  decode58 = λ s. none;
  valid_key = λ key. true;
  verify_strict = λ key message sig. true;
  jwt_secret = codes "secret";
  siwe_domain = codes "example.com";
  chain_id = 1;
}
