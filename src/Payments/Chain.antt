-- ===== src/Payments/Chain.antt =====
-- What a top-up on Ethereum checks of the chain (user_worker/src/payments.rs): quantities, hashes,
-- the transaction, its receipt and logs, and the confirmations. The answers of the node are inputs.
use lets_embed.Prelude.{
  ℕ, ◌-◌, Bool, false, ◌&&◌, ◌||◌, Option, none, some, List, [], ◌∷◌, length, drop, all, ltb, leb,
  ◌==◌, unwrap_or, and_then, is_some, if◌then◌else◌, get_elem?,
}
use lets_embed.Prelude.Text.{Str, codes, str_eq, strip_prefix, in_range, to_lowercase}
use lets_embed.Prelude.Hex.{from_str_radix_16}
use lets_embed.Prelude.Words.{u64_mod, add_u64}
use lets_embed.Config

-- `hex_to_u128`.
unfoldable pub hex_to_u128 : Str → Option ℕ
hex_to_u128 s = and_then (strip_prefix (codes "0x") s) from_str_radix_16

abbrev pub narrow_u64 : ℕ → Option ℕ
narrow_u64 n = if ltb n u64_mod then some n else none

-- `hex_to_u64`.
unfoldable pub hex_to_u64 : Str → Option ℕ
hex_to_u64 s = and_then (hex_to_u128 s) narrow_u64

abbrev is_lower_hex : ℕ → Bool
is_lower_hex b = in_range b'0' b'9' b || in_range b'a' b'f' b

-- `valid_tx_hash`: a text with a code point past ASCII has no such digits, so counting code points
-- for bytes makes no difference.
unfoldable pub valid_tx_hash : Str → Bool
valid_tx_hash s =
    length s == 66 && is_some (strip_prefix (codes "0x") s) && all is_lower_hex (drop 2 s)

pub record RpcTx : Type 0 where
  pub sender : Str
  -- `none` for the creation of a contract.
  pub to : Option Str
  pub value : Str

pub record RpcLog : Type 0 where
  pub address : Str
  pub topics : List Str
  pub data_hex : Str

pub record RpcReceipt : Type 0 where
  pub status : Option Str
  pub block_number : Option Str
  pub logs : List RpcLog

abbrev pub transfer_topic0 : Str
transfer_topic0 = codes "0xddf252ad1be2c89b69c2b068fc378daa952ba7f163c4a11628f55a4df523b3ef"

-- `topic_address`: the last 40 digits, of a topic in ASCII.
unfoldable pub topic_address : Str → Str
topic_address topic =
    let h = to_lowercase (unwrap_or (strip_prefix (codes "0x") topic) topic) in
    drop (length h - 40) h

abbrev topic_of : RpcLog → ℕ → Str
topic_of log i = unwrap_or (get_elem? log.topics i) []

-- The tests of one log, on topics of which the source has seen that there are three.
unfoldable pub is_transfer : RpcLog → Str → Str → Str → Bool
is_transfer log token_addr deposit_no0x sender_no0x =
    str_eq (to_lowercase log.address) token_addr
    && leb 3 (length log.topics)
    && str_eq (to_lowercase (topic_of log 0)) transfer_topic0
    && str_eq (topic_address (topic_of log 2)) deposit_no0x
    && str_eq (topic_address (topic_of log 1)) sender_no0x

-- `find_map`: a log that passes the tests without a readable amount is passed over.
unfoldable pub match_transfer_log : List RpcLog → Str → Str → Str → Option ℕ
match_transfer_log [] token_addr deposit_no0x sender_no0x = none
match_transfer_log (log ∷ logs) token_addr deposit_no0x sender_no0x =
    let rest = match_transfer_log logs token_addr deposit_no0x sender_no0x in
    let here =
      if is_transfer log token_addr deposit_no0x sender_no0x
      then hex_to_u128 log.data_hex
      else none in
    elim here [ none ↦ rest | some amount ↦ some amount ]

-- What the checks end in: they pass, the payment is rejected for good, or it is released with a
-- status and a message, to be submitted again.
pub data Verdict {ℓ} (A : Type ℓ) : Type ℓ where
  passed : A → Verdict A
  rejected_for : Str → Verdict A
  released_with : ℕ → Str → Verdict A

infixl 5 ◌>>=◌
abbrev pub ◌>>=◌ {ℓ κ} : {A : Type ℓ} {B : Type κ} → Verdict A → (A → Verdict B) → Verdict B
◌>>=◌ (passed a) next = next a
◌>>=◌ (rejected_for msg) next = rejected_for msg
◌>>=◌ (released_with status msg) next = released_with status msg

-- `rpc_unavailable` and `too_early`.
abbrev pub rpc_unavailable {ℓ} : {A : Type ℓ} → Verdict A
rpc_unavailable = released_with 502 (codes "rpc unavailable, retry later")

abbrev pub too_early {ℓ} : {A : Type ℓ} → Verdict A
too_early = released_with 425 (codes "not enough confirmations yet, retry later")

-- The answer of the node to a call whose result is decoded.
pub data Answer (A : Type 0) : Type 0 where
  call_failed : Answer A
  null_result : Answer A
  undecodable : Answer A
  found : A → Answer A

-- What the node answers to the calls of one top-up. The head is `none` if its call fails, and
-- `some none` if its result is no text.
pub record Node : Type 0 where
  pub tx : Answer RpcTx
  pub receipt : Answer RpcReceipt
  pub head : Option (Option Str)
  -- The answer of the price feed, `none` if it fails.
  pub feed_price : Option ℕ

abbrev pub transaction : Answer RpcTx → Verdict RpcTx
transaction call_failed = rpc_unavailable
transaction null_result = released_with 400 (codes "tx not found")
transaction undecodable = rpc_unavailable
transaction (found tx) = passed tx

abbrev pub amount_of_value : Str → Verdict ℕ
amount_of_value value = elim (hex_to_u128 value) [
  | none ↦ rejected_for (codes "bad tx value")
  | some wei ↦ passed wei
]

abbrev pub amount_to : Option Str → Str → Str → Verdict ℕ
amount_to none value deposit_address = rejected_for (codes "tx has no recipient")
amount_to (some to) value deposit_address =
    if str_eq (to_lowercase to) deposit_address
    then amount_of_value value
    else rejected_for (codes "tx recipient is not the deposit address")

-- `verify_native_tx`, with the `reject` that its errors lead to.
unfoldable pub verify_native_tx : RpcTx → Str → Verdict ℕ
verify_native_tx tx deposit_address = amount_to tx.to tx.value deposit_address

unfoldable pub check_sender : RpcTx → Str → Verdict {0} Unit
check_sender tx addr =
    if str_eq (to_lowercase tx.sender) addr
    then passed tt
    else released_with 403 (codes "tx sender does not match logged-in address")

abbrev pub block_of : Option Str → Verdict ℕ
block_of none = too_early
block_of (some b) = elim (hex_to_u64 b) [ none ↦ rpc_unavailable | some block ↦ passed block ]

abbrev pub mined_status : Option Str → Option Str → Verdict ℕ
mined_status none block_number = too_early
mined_status (some s) block_number =
    if str_eq s (codes "0x1")
    then block_of block_number
    else rejected_for (codes "tx failed on-chain")

abbrev pub receipt_of : Answer RpcReceipt → Verdict RpcReceipt
receipt_of call_failed = rpc_unavailable
receipt_of null_result = too_early
receipt_of undecodable = rpc_unavailable
receipt_of (found receipt) = passed receipt

-- The block of a receipt that is mined and successful.
unfoldable pub mined : RpcReceipt → Verdict ℕ
mined receipt = mined_status receipt.status receipt.block_number

-- `checked_sub`, and `d + 1 >= MIN_CONFIRMATIONS` in u64.
abbrev pub is_confirmed : Option ℕ → ℕ → Bool
is_confirmed none block = false
is_confirmed (some h) block = leb block h && leb Config.min_confirmations (add_u64 (h - block) 1)

unfoldable pub confirmations : Option (Option Str) → ℕ → Verdict {0} Unit
confirmations none block = rpc_unavailable
confirmations (some head) block =
    if is_confirmed (and_then head hex_to_u64) block then passed tt else too_early

-- Steps 3 to 5 of `topup_ethereum`: the amount in wei.
unfoldable pub native_amount : Str → Str → Node → Verdict ℕ
native_amount deposit_address addr node = do
  tx ← transaction node.tx
  amount ← verify_native_tx tx deposit_address
  _ ← check_sender tx addr
  receipt ← receipt_of node.receipt
  block ← mined receipt
  _ ← confirmations node.head block
  passed amount

abbrev pub without_0x : Str → Str
without_0x s = unwrap_or (strip_prefix (codes "0x") s) s

unfoldable pub transferred : RpcReceipt → Str → Str → Str → Verdict ℕ
transferred receipt contract deposit_address addr =
    elim (match_transfer_log receipt.logs contract (without_0x deposit_address) (without_0x addr)) [
      | none ↦ rejected_for (codes "no matching token transfer")
      | some amount ↦ passed amount
    ]

-- Steps 3 to 5 of `topup_erc20`: the amount in units of the token.
unfoldable pub erc20_amount : Str → Str → Str → Node → Verdict ℕ
erc20_amount contract deposit_address addr node = do
  tx ← transaction node.tx
  _ ← check_sender tx addr
  receipt ← receipt_of node.receipt
  block ← mined receipt
  amount ← transferred receipt contract deposit_address addr
  _ ← confirmations node.head block
  passed amount
