-- ===== src/Siwe/Address/Recovered.antt =====
-- What `recover_address` of user_worker/src/siwe.rs answers.
use lets_embed.Prelude.{
  ℕ, ◌*◌, ◌≡◌, true, ◌++◌, all, take, drop, length, length-drop, length-take, arith, subst,
  Option-cases, inl, inr,
}
use lets_embed.Prelude.Text.{Str, codes, strip_prefix}
use lets_embed.Prelude.Results.{ok, ◌>>=◌, OfOk, bind-OfOk}
use lets_embed.Session.{is_eth_address, is_lower_hex}
use lets_embed.Siwe.Address.{
  Crypto, pubkey_to_address, read_signature, recovered, recover_address, personal_message,
}

-- What the library promises: a hash of 32 bytes, and two lower-case digits for a byte.
pub record IsCrypto {ℓ} {Signature : Type ℓ} (lib : Crypto Signature) : Type ℓ where
  pub length-keccak256 : (s : Str) → length (lib.keccak256 s) ≡ 32
  pub length-hex_encode : (s : Str) → length (lib.hex_encode s) ≡ length s * 2
  pub hex_encode_digits : (s : Str) → all is_lower_hex (lib.hex_encode s) ≡ true

module _ {ℓ} {Signature : Type ℓ} (lib : Crypto Signature) (v : IsCrypto lib) where
  eth_text :
      (s : Str)
      → length s ≡ 40
      → all is_lower_hex s ≡ true
      → is_eth_address (codes "0x" ++ s) ≡ true
  unfolding is_eth_address strip_prefix
  eth_text s n d = ground (arith)

  pubkey-is_eth_address : (point : Str) → is_eth_address (pubkey_to_address lib point) ≡ true
  unfolding pubkey_to_address
  pubkey-is_eth_address point =
      let hash = lib.keccak256 (take 64 (drop 1 point)) in
      let half : length (take 20 (drop 12 hash)) ≡ 20 =
        length-take 20 (drop 12 hash)
          (omega (arith, length-drop 12 hash, v.length-keccak256 (take 64 (drop 1 point)))) in
      eth_text (lib.hex_encode (take 20 (drop 12 hash)))
        (omega (arith, half, v.length-hex_encode (take 20 (drop 12 hash)))) (v.hex_encode_digits _)

  abbrev IsEth : Str → Type 0
  IsEth a = is_eth_address a ≡ true

  recovered-OfOk : (message : Str) (s : Signature × ℕ) → OfOk IsEth (recovered lib message s)
  unfolding recovered OfOk
  recovered-OfOk message (sig, bit) =
      elim (Option-cases (lib.recover (lib.keccak256 (personal_message message)) sig bit)) [
        | inl e ↦ rw e tt
        | inr (point, e) ↦ rw e (pubkey-is_eth_address point)
      ]

  recover_address-OfOk :
      (message signature_hex : Str) → OfOk IsEth (recover_address lib message signature_hex)
  unfolding recover_address
  recover_address-OfOk message signature_hex =
      bind-OfOk IsEth _ (λ bytes. read_signature lib bytes >>= recovered lib message)
        (λ bytes.
          bind-OfOk IsEth (read_signature lib bytes) (recovered lib message)
            (recovered-OfOk message))

  -- If a hash has 32 bytes and the hexadecimal codec writes two lower-case digits for a byte,
  -- every recovered signer is a well-formed Ethereum principal.
  pub recover_address-is_eth_address :
      (message signature_hex a : Str)
      → recover_address lib message signature_hex ≡ ok a
      → is_eth_address a ≡ true
  unfolding OfOk
  recover_address-is_eth_address message signature_hex a h =
      subst (OfOk IsEth) h (recover_address-OfOk message signature_hex)
