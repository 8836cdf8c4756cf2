-- ===== src/Payments/Genuine.antt =====
-- What the checks of user_worker/src/payments.rs establish of a top-up on Ethereum.
use lets_embed.Prelude.{
  ℕ, ◌+◌, ◌≤◌, ◌≡◌, refl, ◌∙◌, ap, Option, none, some, arith, Bool-cases, Option-cases, inl, inr,
}
use lets_embed.Prelude.Text.{Str, codes, str_eq, str_eq_iff, to_lowercase}
use lets_embed.Payments.Chain.{
  hex_to_u128, hex_to_u64, RpcTx, RpcReceipt, Verdict, passed, rejected_for, released_with, ◌>>=◌,
  Answer, call_failed, null_result, undecodable, found, Node, transaction, verify_native_tx,
  check_sender, receipt_of, mined, confirmations, native_amount, block_of, mined_status,
  amount_of_value, amount_to,
}

-- A chain of checks passes if each does.
pub bind-passed :
    {A B : Type 0} (v : Verdict A) (next : A → Verdict B) {b : B}
    → (v >>= next) ≡ passed b
    → (a : A) × (v ≡ passed a) × (next a ≡ passed b)
bind-passed (passed a) next h = (a, refl, h)
bind-passed (rejected_for msg) next h = cc
bind-passed (released_with status msg) next h = cc

pub transaction-passed : (t : Answer RpcTx) {tx : RpcTx} → transaction t ≡ passed tx → t ≡ found tx
transaction-passed call_failed h = cc
transaction-passed null_result h = cc
transaction-passed undecodable h = cc
transaction-passed (found t) h = cc

pub receipt-passed :
    (t : Answer RpcReceipt) {r : RpcReceipt} → receipt_of t ≡ passed r → t ≡ found r
receipt-passed call_failed h = cc
receipt-passed null_result h = cc
receipt-passed undecodable h = cc
receipt-passed (found t) h = cc

pub sender-passed :
    (tx : RpcTx) (addr : Str) {u : Unit}
    → check_sender tx addr ≡ passed u
    → to_lowercase tx.sender ≡ addr
unfolding check_sender
sender-passed tx addr h = ground (arith, str_eq_iff (to_lowercase tx.sender) addr)

value-passed :
    (value : Str) {amount : ℕ}
    → amount_of_value value ≡ passed amount
    → hex_to_u128 value ≡ some amount
value-passed value h = ground arith

to-passed :
    (o : Option Str) (value deposit : Str) {amount : ℕ}
    → amount_to o value deposit ≡ passed amount
    → (to : Str) × (o ≡ some to) × (to_lowercase to ≡ deposit) × (hex_to_u128 value ≡ some amount)
to-passed none value deposit h = cc
to-passed (some to) value deposit h = elim (Bool-cases (str_eq (to_lowercase to) deposit)) [
  | inl e ↦
      (to, refl, (str_eq_iff (to_lowercase to) deposit).0 e, value-passed value (ground arith))
  | inr e ↦ absurd (ground arith)
]

native-passed :
    (tx : RpcTx) (deposit : Str) {amount : ℕ}
    → verify_native_tx tx deposit ≡ passed amount
    → (to : Str) × (tx.to ≡ some to)
      × (to_lowercase to ≡ deposit)
      × (hex_to_u128 tx.value ≡ some amount)
unfolding verify_native_tx
native-passed tx deposit h = to-passed tx.to tx.value deposit h

block-passed :
    (o : Option Str) {block : ℕ}
    → block_of o ≡ passed block
    → (b : Str) × (o ≡ some b) × (hex_to_u64 b ≡ some block)
block-passed none h = cc
block-passed (some b) h = (b, refl, ground arith)

status-passed :
    (s o : Option Str) {block : ℕ}
    → mined_status s o ≡ passed block
    → (s ≡ some (codes "0x1")) × ((b : Str) × (o ≡ some b) × (hex_to_u64 b ≡ some block))
status-passed none o h = cc
status-passed (some s) o h = elim (Bool-cases (str_eq s (codes "0x1"))) [
  | inl e ↦ (ap some ((str_eq_iff s (codes "0x1")).0 e), block-passed o (ground arith))
  | inr e ↦ absurd (ground arith)
]

-- The block `block` is at least five blocks below the head.
abbrev pub IsDeep : Node → ℕ → Type 0
IsDeep node block =
    (h : Str) × (height : ℕ) × (node.head ≡ some (some h))
    × (hex_to_u64 h ≡ some height)
    × (block + 5 ≤ height)

head-passed :
    (o : Option (Option Str)) (block : ℕ) {u : Unit}
    → confirmations o block ≡ passed u
    → (h : Str) × (height : ℕ) × (o ≡ some (some h))
      × (hex_to_u64 h ≡ some height)
      × (block + 5 ≤ height)
unfolding confirmations
head-passed none block h = cc
head-passed (some none) block h = cc
head-passed (some (some t)) block h = elim (Option-cases (hex_to_u64 t)) [
  | inl e ↦ absurd (ground arith)
  | inr (height, e) ↦ (t, height, refl, e, ground arith)
]

-- A mined and successful receipt of the node, in a block that is deep enough.
pub record IsMined (node : Node) (receipt : RpcReceipt) : Type 0 where
  pub answer : node.receipt ≡ found receipt
  pub status : receipt.status ≡ some (codes "0x1")
  pub depth :
      (b : Str) × (block : ℕ) × (receipt.block_number ≡ some b)
      × (hex_to_u64 b ≡ some block)
      × IsDeep node block

-- The transaction of the node, sent by `addr`.
pub record IsSent (node : Node) (addr : Str) (tx : RpcTx) : Type 0 where
  pub answer : node.tx ≡ found tx
  pub sender : to_lowercase tx.sender ≡ addr

-- A genuine payment in ether.
abbrev pub IsNative : Str → Str → Node → ℕ → Type 0
IsNative deposit addr node amount =
    (tx : RpcTx) × (receipt : RpcReceipt) × IsSent node addr tx
    × IsMined node receipt
    × (to : Str) × (tx.to ≡ some to)
    × (to_lowercase to ≡ deposit)
    × (hex_to_u128 tx.value ≡ some amount)

pub mined-IsMined :
    (node : Node) (receipt : RpcReceipt) {block : ℕ} {u : Unit}
    → node.receipt ≡ found receipt
    → mined receipt ≡ passed block
    → confirmations node.head block ≡ passed u
    → IsMined node receipt
unfolding mined
mined-IsMined node receipt a m c =
    let (s, (b, n, e)) = status-passed receipt.status receipt.block_number m in
    record { answer = a; status = s; depth = (b, _, n, e, head-passed node.head _ c) }

-- An amount in ether passes the checks only if the payment is genuine.
pub native_amount-IsNative :
    (deposit addr : Str) (node : Node) {amount : ℕ}
    → native_amount deposit addr node ≡ passed amount
    → IsNative deposit addr node amount
unfolding native_amount
native_amount-IsNative deposit addr node h =
    let (tx, t, h1) = bind-passed (transaction node.tx) _ h in
    let (a, v, h2) = bind-passed (verify_native_tx tx deposit) _ h1 in
    let (_, s, h3) = bind-passed (check_sender tx addr) _ h2 in
    let (receipt, r, h4) = bind-passed (receipt_of node.receipt) _ h3 in
    let (block, m, h5) = bind-passed (mined receipt) _ h4 in
    let (_, c, h6) = bind-passed (confirmations node.head block) _ h5 in
    let (to, o, d, w) = native-passed tx deposit v in
    (
      tx,
      receipt,
      record { answer = transaction-passed node.tx t; sender = sender-passed tx addr s },
      mined-IsMined node receipt (receipt-passed node.receipt r) m c,
      to,
      o,
      d,
      w ∙ (ground arith),
    )
