-- ===== src/Siwe/Address.antt =====
-- `recover_address` and `to_checksum` of user_worker/src/siwe.rs, on texts as lists of bytes.
-- Keccak-256, the hexadecimal codec and the secp256k1 recovery are library code, and parameters here.
pub mod Recovered
pub mod Checksum
use lets_embed.Prelude.{
  ℕ, zero, suc, ◌+◌, ◌-◌, ◌/◌, ◌%◌, Bool, true, false, ◌&&◌, ◌||◌, Option, none, some, List, [],
  ◌∷◌, ◌++◌, take, drop, length, get_elem?, unwrap_or, leb, ◌==◌, if◌then◌else◌,
}
use lets_embed.Prelude.Text.{Str, codes, strip_prefix, in_range}
use lets_embed.Prelude.Decimal.{decimal}
use lets_embed.Prelude.Results.{Result, ok, err, ok_or, guard, ◌>>=◌, ◌>>◌}

-- The library functions. A signature that is read, its normal form if it is not in it already, and
-- the bytes of the recovered key as an uncompressed point.
pub record Crypto {ℓ} (Signature : Type ℓ) : Type ℓ where
  pub keccak256 : Str → Str
  pub hex_encode : Str → Str
  pub hex_decode : Str → Option Str
  pub from_slice : Str → Option Signature
  pub normalize_s : Signature → Option Signature
  pub recover : Str → Signature → ℕ → Option Str

abbrev bad_signature : Str
bad_signature = codes "invalid signature"

-- The recovery bit in its two spellings.
unfoldable pub recovery_bit : ℕ → Option ℕ
recovery_bit b = if leb b 1 then some b else if b == 27 || b == 28 then some (b - 27) else none

-- `v ^= 1`, on a bit.
abbrev flip_bit : ℕ → ℕ
flip_bit v = 1 - v

-- What a wallet signs for a message. A length has at most 20 digits.
abbrev pub personal_message : Str → Str
personal_message message =
    (0x19 ∷ codes "Ethereum Signed Message:") ++ (0xa ∷ (decimal 19 (length message) ++ message))

module _ {ℓ} {Signature : Type ℓ} (lib : Crypto Signature) where
  -- `pubkey_to_address`, from the bytes of the point.
  unfoldable pub pubkey_to_address : Str → Str
  pubkey_to_address point =
      codes "0x" ++ lib.hex_encode (take 20 (drop 12 (lib.keccak256 (take 64 (drop 1 point)))))

  abbrev normalized : Signature → ℕ → Signature × ℕ
  normalized sig v = elim (lib.normalize_s sig) [ none ↦ (sig, v) | some s ↦ (s, flip_bit v) ]

  -- The signature and the recovery bit, in normal form.
  unfoldable pub read_signature : Str → Result (Signature × ℕ)
  read_signature sig_bytes = do
    guard (length sig_bytes == 65) bad_signature
    last ← ok_or (get_elem? sig_bytes 64) bad_signature
    bit ← ok_or (recovery_bit last) bad_signature
    read ← ok_or (lib.from_slice (take 64 sig_bytes)) bad_signature
    ok (normalized read bit)

  unfoldable pub recovered : Str → Signature × ℕ → Result Str
  recovered message (sig, v) = do
    point ← ok_or (lib.recover (lib.keccak256 (personal_message message)) sig v) bad_signature
    ok (pubkey_to_address point)

  -- `recover_address`.
  unfoldable pub recover_address : Str → Str → Result Str
  recover_address message signature_hex = do
    sig_bytes ←
        ok_or (lib.hex_decode (unwrap_or (strip_prefix (codes "0x") signature_hex) signature_hex))
          (codes "invalid hex")
    sig ← read_signature sig_bytes
    recovered message sig

-- `c.is_ascii_alphabetic()` and `c.to_ascii_uppercase()`.
abbrev is_alphabetic : ℕ → Bool
is_alphabetic c = in_range b'a' b'z' c || in_range b'A' b'Z' c

abbrev pub upper : ℕ → ℕ
upper c = if in_range b'a' b'z' c then c - 32 else c

-- The hash digit at a place.
abbrev nibble : Str → ℕ → ℕ
nibble hash i =
    let b = unwrap_or (get_elem? hash (i / 2)) 0 in if i % 2 == 0 then b / 16 else b % 16

-- The loop over the digits from place `i` on.
unfoldable pub cased : Str → ℕ → Str → Str
cased hash i [] = []
cased hash i (c ∷ s) =
    (if is_alphabetic c && leb 8 (nibble hash i) then upper c else c) ∷ cased hash (i + 1) s

-- `to_checksum`.
unfoldable pub to_checksum : (Str → Str) → Str → Str
to_checksum keccak256 addr =
    let hex_part = unwrap_or (strip_prefix (codes "0x") addr) addr in
    codes "0x" ++ cased (keccak256 hex_part) 0 (take 64 hex_part)
