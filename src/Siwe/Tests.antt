-- ===== src/Siwe/Tests.antt =====
-- Runs on the message of the tests of user_worker/src/siwe.rs, and on concrete library functions.
use lets_embed.Prelude.{◌≡◌, refl, true, some, arith}
use lets_embed.Prelude.Int.{pos, ◌-ℤ◌}
use lets_embed.Prelude.Text.{codes, strip_prefix}
use lets_embed.Prelude.Results.{ok}
use lets_embed.Session.{is_eth_address}
use lets_embed.Siwe.Message.{SiweMessage, parse_siwe}
use lets_embed.Siwe.Message.RoundTrip.{IsPrintable, print_siwe, parse_siwe-print_siwe}
use lets_embed.Siwe.Rfc3339.{Fields, parse_rfc3339_epoch, to_u64}
use lets_embed.Siwe.Rfc3339.Print.{
  east, IsTime, print_rfc3339, clock_secs, zone_secs, parse_rfc3339_epoch-print,
}
use lets_embed.Siwe.Address.{
  recovery_bit, pubkey_to_address, read_signature, recovered, recover_address,
}
use lets_embed.Siwe.Samples.{crypto, crypto-IsCrypto, signer}
use lets_embed.Siwe.Address.Recovered.{recover_address-is_eth_address}

abbrev message : SiweMessage
message = record {
  domain = codes "example.com";
  address = codes "0x5aAeb6053F3E94C9b9A09f33669435E7Ef1BeAed";
  statement = some (codes "Sign in to lets_embed.");
  uri = codes "https://example.com/user/login";
  version = codes "1";
  chain_id = 1;
  nonce = codes "32891756";
  issued_at = codes "2026-07-04T00:00:00Z";
  expiration_time = some (codes "2026-07-04T00:10:00Z");
}

message-IsPrintable : IsPrintable message
unfolding strip_prefix
message-IsPrintable = record {
  domain = ((refl, refl), refl);
  address = ((refl, refl), refl);
  statement = ((refl, refl), refl, refl);
  uri = (refl, refl);
  version = (refl, refl);
  chain_id = omega arith;
  nonce = (refl, refl);
  issued_at = (refl, refl);
  expiration_time = (refl, refl);
}

parse_siwe-print_siwe_example : parse_siwe (print_siwe message) ≡ ok message
parse_siwe-print_siwe_example = parse_siwe-print_siwe message message-IsPrintable

-- Half past noon and some seconds, east of Greenwich.
abbrev stamp : Fields
stamp = record { year = 2026; month = 7; day = 4; hour = 12; min = 34; sec = 56 }

stamp-IsTime : IsTime stamp
stamp-IsTime = record {
  year = (omega arith, omega arith);
  month = (omega arith, omega arith);
  day = (omega arith, omega arith);
  hour = omega arith;
  min = omega arith;
  sec = omega arith;
}

parse_rfc3339_epoch-print_example :
    parse_rfc3339_epoch (print_rfc3339 stamp (codes "5") (east 2 0))
    ≡ to_u64 (pos (clock_secs stamp) -ℤ zone_secs (east 2 0))
parse_rfc3339_epoch-print_example =
    parse_rfc3339_epoch-print stamp (codes "5") (east 2 0) stamp-IsTime refl
      (omega arith, omega arith)

signer-is_eth_address : is_eth_address signer ≡ true
unfolding is_eth_address strip_prefix
signer-is_eth_address = refl

recovered_signer : recover_address crypto (codes "hello") (codes "0x00") ≡ ok signer
unfolding recover_address read_signature recovered recovery_bit pubkey_to_address strip_prefix
recovered_signer = refl

recover_address-is_eth_address_example : is_eth_address signer ≡ true
recover_address-is_eth_address_example =
    recover_address-is_eth_address crypto crypto-IsCrypto (codes "hello") (codes "0x00") signer
      recovered_signer
