-- ===== src/Payments/Solana.antt =====
-- The verification of a Solana top-up (user_worker/src/solana.rs). Base58 is a parameter.
pub mod Received
mod Tests
use lets_embed.Prelude.{
  ℕ, ◌+◌, ◌-◌, ◌*◌, Bool, true, false, not, ◌&&◌, Option, none, some, List, [], ◌∷◌, length, find,
  get_elem?, ltb, leb, ◌==◌, unwrap_or, and_then, is_some, if◌then◌else◌,
}
use lets_embed.Prelude.Text.{Str, codes, str_eq, in_range}
use lets_embed.Prelude.Words.{u128_mod}
use lets_embed.Payments.Json.{Json, null, text, get, field, as_array, as_str, as_u64, is_null}

pub data SolOutcome : Type 0 where
  received : ℕ → SolOutcome
  refused_for : Str → SolOutcome
  wrong_sender : SolOutcome
  not_final : SolOutcome
  rpc_error : Str → SolOutcome

-- `valid_signature`, with the decoding of base58.
unfoldable pub valid_signature : (Str → Option (List ℕ)) → Str → Bool
valid_signature decode sig = elim (decode sig) [ none ↦ false | some bytes ↦ length bytes == 64 ]

abbrev pub key_of : Json → Option Str
key_of (text s) = some s
key_of other = and_then (get other (codes "pubkey")) as_str

-- `pubkey_at`.
abbrev pub pubkey_at : List Json → ℕ → Option Str
pubkey_at keys i = and_then (get_elem? keys i) key_of

-- `str::parse::<u128>`: decimal digits, one leading `+`, within range.
abbrev digits : ℕ → Str → Option ℕ
digits acc [] = some acc
digits acc (c ∷ s) =
    let n = acc * 10 + (c - b'0') in
    let rest = digits n s in if in_range b'0' b'9' c && ltb n u128_mod then rest else none

abbrev some_digits : Str → Option ℕ
some_digits [] = none
some_digits (c ∷ s) = digits 0 (c ∷ s)

abbrev pub parse_u128 : Str → Option ℕ
parse_u128 [] = none
parse_u128 (c ∷ s) = if c == b'+' then some_digits s else some_digits (c ∷ s)

-- `token_amount`.
abbrev pub token_amount : Json → Option ℕ
token_amount entry =
    and_then
      (and_then (and_then (get entry (codes "uiTokenAmount")) (λ v. get v (codes "amount"))) as_str)
      parse_u128

abbrev pub is_key : Str → Option Str → Bool
is_key name none = false
is_key name (some s) = str_eq s name

-- The index of the first key that is `name`.
abbrev pub position : Str → ℕ → List Json → Option ℕ
position name i [] = none
position name i (k ∷ ks) =
    let rest = position name (i + 1) ks in if is_key name (key_of k) then some i else rest

abbrev pub balance_at : Json → ℕ → Option ℕ
balance_at balances i = and_then (and_then (as_array balances) (λ l. get_elem? l i)) as_u64

abbrev pub gained : Option ℕ → Option ℕ → SolOutcome
gained (some pre) (some post) =
    if leb post pre then refused_for (codes "no SOL received") else received (post - pre)
gained _ _ = rpc_error (codes "malformed transaction: missing balances")

-- The native branch: the lamports that the deposit address gained.
unfoldable pub native_received : Json → List Json → Str → SolOutcome
native_received meta keys deposit_address = elim (position deposit_address 0 keys) [
  | none ↦ refused_for (codes "deposit address not in transaction")
  | some i ↦
      gained (balance_at (field meta (codes "preBalances")) i)
        (balance_at (field meta (codes "postBalances")) i)
]

abbrev is_account_of : Str → Str → Json → Bool
is_account_of mint owner e =
    is_key mint (and_then (get e (codes "mint")) as_str)
    && is_key owner (and_then (get e (codes "owner")) as_str)

abbrev same_index : Option ℕ → Option ℕ → Bool
same_index (some i) (some j) = i == j
same_index _ _ = false

abbrev account_index : Json → Option ℕ
account_index e = and_then (get e (codes "accountIndex")) as_u64

abbrev pre_amount_of : List Json → Json → ℕ
pre_amount_of pre_balances post_entry =
    unwrap_or
      (and_then (find (λ e. same_index (account_index e) (account_index post_entry)) pre_balances)
        token_amount)
      0

abbrev token_gained : Option ℕ → ℕ → SolOutcome
token_gained none pre_amount = rpc_error (codes "malformed transaction: bad token amount")
token_gained (some post_amount) pre_amount =
    if leb post_amount pre_amount
    then refused_for (codes "no token received")
    else received (post_amount - pre_amount)

-- The branch of an SPL token: the units that the token account of the deposit address gained.
unfoldable pub token_received : Json → Str → Str → SolOutcome
token_received meta mint deposit_address =
    let post_balances = unwrap_or (as_array (field meta (codes "postTokenBalances"))) [] in
    let pre_balances = unwrap_or (as_array (field meta (codes "preTokenBalances"))) [] in
    elim (find (is_account_of mint deposit_address) post_balances) [
      | none ↦ refused_for (codes "no token received")
      | some post_entry ↦
          token_gained (token_amount post_entry) (pre_amount_of pre_balances post_entry)
    ]

abbrev pub sent_by : Option Str → Json → List Json → Option Str → Str → Str → SolOutcome
sent_by none meta keys contract deposit_address linked_address =
    rpc_error (codes "malformed transaction: missing fee payer")
sent_by (some sender) meta keys contract deposit_address linked_address =
    if str_eq sender linked_address
    then elim contract [
      | none ↦ native_received meta keys deposit_address
      | some mint ↦ token_received meta mint deposit_address
    ]
    else wrong_sender

abbrev pub keyed : Option (List Json) → Json → Option Str → Str → Str → SolOutcome
keyed none meta contract deposit_address linked_address =
    rpc_error (codes "malformed transaction: missing accountKeys")
keyed (some keys) meta contract deposit_address linked_address =
    sent_by (pubkey_at keys 0) meta keys contract deposit_address linked_address

-- `verify_solana`.
unfoldable pub verify_solana : Json → Option Str → Str → Str → SolOutcome
verify_solana result contract deposit_address linked_address =
    let meta = field result (codes "meta") in
    let keys = as_array (
      field (field (field result (codes "transaction")) (codes "message")) (codes "accountKeys")) in
    if is_null (field meta (codes "err"))
    then keyed keys meta contract deposit_address linked_address
    else refused_for (codes "tx failed on-chain")

-- `topup_solana` of solana.rs, at the answer of `getTransaction`.
unfoldable pub outcome_of : Option Json → Option Str → Str → Str → SolOutcome
outcome_of none contract deposit_address linked_address = rpc_error (codes "getTransaction")
outcome_of (some result) contract deposit_address linked_address =
    if is_null result
    then not_final
    else verify_solana result contract deposit_address linked_address
