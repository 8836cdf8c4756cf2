-- ===== src/Siwe/Samples.antt =====
-- Concrete library functions for the runs of user_worker/src/siwe.rs and user_worker/src/auth.rs.
use lets_embed.Prelude.{
  ℕ, zero, suc, ◌+◌, ◌-◌, ◌*◌, ◌/◌, ◌%◌, ◌≡◌, refl, true, none, some, [], ◌∷◌, all, length, arith,
  ltb, if◌then◌else◌,
}
use lets_embed.Prelude.Text.{Str, codes}
use lets_embed.Session.{is_lower_hex}
use lets_embed.Siwe.Address.{Crypto}
use lets_embed.Siwe.Address.Recovered.{IsCrypto}

abbrev pub zeros : ℕ → Str
zeros zero = []
zeros (suc n) = 0 ∷ zeros n

abbrev digit : ℕ → ℕ
digit n = if ltb n 10 then b'0' + n else b'a' + (n - 10)

abbrev hex : Str → Str
hex [] = []
hex (b ∷ s) = digit (b / 16 % 16) ∷ digit (b % 16) ∷ hex s

-- A hash that depends on nothing, and one signature of one key.
abbrev pub crypto : Crypto Str
crypto = record {
  keccak256 = λ s. zeros 32;
  hex_encode = hex;
  hex_decode = λ s. some (zeros 65);
  from_slice = λ s. some s;
  normalize_s = λ s. none;
  recover = λ digest sig bit. some (zeros 65);
}

length-hex : (s : Str) → length (hex s) ≡ length s * 2
length-hex [] = omega arith
length-hex (b ∷ s) = omega (arith, length-hex s)

hex_digits : (s : Str) → all is_lower_hex (hex s) ≡ true
hex_digits [] = refl
hex_digits (b ∷ s) = ground (arith, hex_digits s)

pub crypto-IsCrypto : IsCrypto crypto
crypto-IsCrypto = record {
  length-keccak256 = λ s. refl;
  length-hex_encode = length-hex;
  hex_encode_digits = hex_digits;
}

abbrev pub signer : Str
signer = codes "0x0000000000000000000000000000000000000000"
