-- ===== src/Login/Tests.antt =====
-- Runs of the logins of user_worker/src/auth.rs and user_worker/src/solana_link.rs.
use lets_embed.Prelude.{
  ℕ, ◌≡◌, refl, true, false, Option, none, some, List, [], ◌∷◌, any, arith, ◌==◌, if◌then◌else◌,
}
use lets_embed.Prelude.Text.{Str, codes, str_eq, strip_prefix, to_lowercase, lower}
use lets_embed.Session.{Codec}
use lets_embed.Session.Principals.{RefusesZero}
use lets_embed.Account.Storage.{untouched}
use lets_embed.Siwe.Message.{SiweMessage}
use lets_embed.Siwe.Message.RoundTrip.{IsPrintable, print_siwe, parse_siwe-print_siwe}
use lets_embed.Siwe.Rfc3339.{
  num, sep, days_from_civil, read_fields, separated, fields_in_range, skip_fraction, read_offset,
  epoch, parse_rfc3339_epoch,
}
use lets_embed.Siwe.Address.{
  recovery_bit, pubkey_to_address, read_signature, recovered, recover_address,
}
use lets_embed.Prelude.Int.{◌+ℤ◌, ◌-ℤ◌}
use lets_embed.Prelude.Decimal.{digits, parse_decimal}
use lets_embed.Prelude.Results.{ok}
use lets_embed.Siwe.Samples.{crypto, crypto-IsCrypto, signer}
use lets_embed.Login.Users.{upsert}
use lets_embed.Login.World.{
  VerifyReq, WalletReq, Env, Trip, answered, World, take_nonce, after_init, issued, enter,
}
use lets_embed.Login.Ethereum.{expiration_reply, message_reply, verify_signer, verify}
use lets_embed.Login.Life.{Event, on_nonce, on_verify, on_verify_solana, on_link, on_unlink, run}
use lets_embed.Login.Sessions.{is_session, IsSigned, verify-IsSigned}
use lets_embed.Login.Coexistence.Table.{IsCoexistent}
use lets_embed.Login.Coexistence.Run.{run-IsCoexistent}

abbrev lib : Codec
lib = record {
  b64_encode = λ s. s;
  b64_decode = λ s. some s;
  hmac = λ secret text. text;
  to_json = λ c. c.sub;
  of_json = λ s. some (record { sub = s; iat = 0; exp = 2000000000 });
}

abbrev decode58 : Str → Option (List ℕ)
decode58 s = if any (λ c. c == b'0') s then none else some s

decode58-RefusesZero : RefusesZero decode58
decode58-RefusesZero s h = rw h refl

abbrev env : Env Str
env = record {
  lib = lib;
  crypto = crypto;
  decode58 = decode58;
  valid_key = λ key. true;
  verify_strict = λ key message sig. true;
  jwt_secret = codes "secret";
  siwe_domain = codes "example.com";
  chain_id = 1;
}

-- A minute after the message was issued, and everything works.
abbrev trip : Trip
trip = record {
  now = 1783123260;
  later = 1783123261;
  nonce_get_ok = true;
  nonce_delete_ok = true;
  lookup_ok = true;
  owner_ok = true;
  write_ok = true;
  constraint = false;
  ban_ok = true;
  init_call = answered;
}

abbrev message : SiweMessage
message = record {
  domain = codes "example.com";
  address = signer;
  statement = none;
  uri = codes "https://example.com/user/login";
  version = codes "1";
  chain_id = 1;
  nonce = codes "32891756";
  issued_at = codes "2026-07-04T00:00:00Z";
  expiration_time = none;
}

message-IsPrintable : IsPrintable message
message-IsPrintable = record {
  domain = ((refl, refl), refl);
  address = ((refl, refl), refl);
  statement = tt;
  uri = (refl, refl);
  version = (refl, refl);
  chain_id = omega arith;
  nonce = (refl, refl);
  issued_at = (refl, refl);
  expiration_time = tt;
}

abbrev request : VerifyReq
request = record { message = print_siwe message; signature = codes "0x00" }

abbrev world : World
world = record { nonces = λ n. str_eq n (codes "32891756"); users = []; accounts = λ a. untouched }

issued_epoch : parse_rfc3339_epoch (codes "2026-07-04T00:00:00Z") ≡ some 1783123200
unfolding parse_rfc3339_epoch read_fields num sep separated fields_in_range skip_fraction
    read_offset epoch days_from_civil ◌+ℤ◌ ◌-ℤ◌ parse_decimal digits
issued_epoch = refl

signed : recover_address crypto (print_siwe message) (codes "0x00") ≡ ok signer
unfolding recover_address read_signature recovered recovery_bit pubkey_to_address strip_prefix
signed = refl

issues : is_session (verify env trip request world).0 ≡ true
unfolding verify message_reply expiration_reply take_nonce verify_signer enter issued after_init
    upsert str_eq to_lowercase lower
issues =
    rw
      (
        parse_siwe-print_siwe message message-IsPrintable,
        verify,
        issued_epoch,
        verify_signer,
        signed,
      )
      refl

verify-IsSigned_example : IsSigned env trip request world (verify env trip request world)
verify-IsSigned_example = verify-IsSigned env trip request world issues

abbrev wallet : WalletReq
wallet = record {
  solana_address = codes "7Np41oeYqPefeNQEHSv1UDhYrehxin3NStELsSKCT4K2";
  signature = codes "5";
  nonce = codes "n1";
}

-- A login with a wallet that is then to be linked, and unlinked.
abbrev ticks : List (Trip × Event)
ticks =
    (trip, on_nonce (codes "n1"))
    ∷ (trip, on_verify_solana wallet)
    ∷ (trip, on_verify request)
    ∷ (trip, on_link (some (codes "a.a")) wallet)
    ∷ (trip, on_unlink (some (codes "a.a")))
    ∷ []

no_users : IsCoexistent decode58 []
no_users = record { apart = λ w h. refl; keys = λ w h. absurd (ground (arith, h)) }

run-IsCoexistent_example : IsCoexistent decode58 (run env ticks world).users
run-IsCoexistent_example =
    run-IsCoexistent env crypto-IsCrypto decode58-RefusesZero ticks world no_users
