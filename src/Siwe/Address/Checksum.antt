-- ===== src/Siwe/Address/Checksum.antt =====
-- `to_checksum` of user_worker/src/siwe.rs changes the case of letters only.
use lets_embed.Prelude.{
  ℕ, zero, suc, ◌+◌, ◌≤◌, ◌≡◌, refl, sym, ap, ap₂, ◌∙◌, true, [], ◌∷◌, ◌++◌, all, take, length,
  arith,
}
use lets_embed.Prelude.Text.{Str, codes, strip_prefix, to_lowercase, lower}
use lets_embed.Prelude.Split.{strip_prefix-append}
use lets_embed.Session.{is_eth_address, is_lower_hex}
use lets_embed.Siwe.Address.{cased, to_checksum}

to_lowercase-cased :
    (hash : Str) (i : ℕ) (s : Str) → all is_lower_hex s ≡ true → to_lowercase (cased hash i s) ≡ s
unfolding to_lowercase lower cased
to_lowercase-cased hash i [] h = refl
to_lowercase-cased hash i (c ∷ s) h =
    ap₂ (λ x xs. x ∷ xs) (ground arith) (to_lowercase-cased hash (i + 1) s (ground arith))

-- An address is `0x` before 40 digits.
eth_parts :
    (a : Str)
    → is_eth_address a ≡ true
    → (s : Str) × (a ≡ codes "0x" ++ s) × (length s ≡ 40) × (all is_lower_hex s ≡ true)
unfolding is_eth_address strip_prefix
eth_parts [] h = absurd (ground arith)
eth_parts (x ∷ []) h = absurd (ground arith)
eth_parts (x ∷ y ∷ s) h = (s, ground arith, ground arith, ground arith)

take-all : (n : ℕ) (s : Str) → length s ≤ n → take n s ≡ s
take-all zero [] h = refl
take-all (suc n) [] h = refl
take-all zero (c ∷ s) h = absurd (omega arith)
take-all (suc n) (c ∷ s) h = ap (λ t. c ∷ t) (take-all n s (omega arith))

checksum_parts :
    (keccak256 : Str → Str) (s : Str)
    → length s ≡ 40
    → all is_lower_hex s ≡ true
    → to_lowercase (to_checksum keccak256 (codes "0x" ++ s)) ≡ codes "0x" ++ s
unfolding to_checksum to_lowercase lower
checksum_parts keccak256 s n d =
    rw (strip_prefix-append (codes "0x") s, take-all 64 s (omega arith))
      (ap (λ t. codes "0x" ++ t) (to_lowercase-cased (keccak256 s) 0 s d))

-- For every hash function, the checksummed form of an Ethereum principal is that principal in
-- lower case.
pub to_lowercase-to_checksum :
    (keccak256 : Str → Str) (a : Str)
    → is_eth_address a ≡ true
    → to_lowercase (to_checksum keccak256 a) ≡ a
to_lowercase-to_checksum keccak256 a h =
    let (s, e, n, d) = eth_parts a h in
    ap (λ x. to_lowercase (to_checksum keccak256 x)) e ∙ checksum_parts keccak256 s n d ∙ sym e
