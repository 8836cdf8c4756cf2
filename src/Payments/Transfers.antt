-- ===== src/Payments/Transfers.antt =====
-- Token transfers in the logs of a receipt (user_worker/src/payments.rs): which log a top-up with
-- an ERC-20 token is credited for.
use mathlib.Core.List.{Memᴰ}
use lets_embed.Prelude.{
  subst, ℕ, ◌≡◌, ◌≢◌, refl, ◌∙◌, true, none, some, List, [], ◌∷◌, arith, Bool-cases, Option-cases,
  inl, inr,
}
use lets_embed.Prelude.Text.{Str, str_eq_iff, to_lowercase}
use lets_embed.Payments.Chain.{
  hex_to_u128, RpcTx, RpcLog, RpcReceipt, is_transfer, topic_address, transfer_topic0,
  match_transfer_log, passed, Node, transaction, check_sender, receipt_of, mined, confirmations,
  transferred, erc20_amount, without_0x,
}
use lets_embed.Payments.Genuine.{
  bind-passed, transaction-passed, receipt-passed, sender-passed, mined-IsMined, IsMined, IsSent,
}

module _ (contract deposit sender : Str) where
  -- A log that passes the tests, with a readable amount.
  abbrev pub IsMatched : RpcLog → ℕ → Type 0
  IsMatched log amount =
      (is_transfer log contract deposit sender ≡ true) × (hex_to_u128 log.data_hex ≡ some amount)

  pub transfer_found :
      (logs : List RpcLog) {amount : ℕ}
      → match_transfer_log logs contract deposit sender ≡ some amount
      → (log : RpcLog) × Memᴰ log logs × IsMatched log amount
  unfolding match_transfer_log
  transfer_found [] h = cc
  transfer_found (log ∷ logs) h = elim (Bool-cases (is_transfer log contract deposit sender)) [
    | inl e ↦ elim (Option-cases (hex_to_u128 log.data_hex)) [
      | inl n ↦ let (l, m, t) = transfer_found logs (ground arith) in (l, Memᴰ.tail m, t)
      | inr (v, n) ↦ (log, Memᴰ.head refl, (e, ground arith))
    ]
    | inr e ↦ let (l, m, t) = transfer_found logs (ground arith) in (l, Memᴰ.tail m, t)
  ]

  -- A log that reports a transfer from the sender to the deposit address by the token, with a
  -- readable amount, is not missed among the logs: some amount is found.
  pub transfer_not_missed :
      (logs : List RpcLog) (log : RpcLog) {amount : ℕ}
      → Memᴰ log logs
      → IsMatched log amount
      → match_transfer_log logs contract deposit sender ≢ none
  unfolding match_transfer_log
  transfer_not_missed [] log m t h = elim m [ ]
  transfer_not_missed (l ∷ logs) log (Memᴰ.head e) (t, v) h = ground arith
  transfer_not_missed (l ∷ logs) log (Memᴰ.tail m) t h =
      transfer_not_missed logs log m t (ground arith)

-- A log in which the token reports a transfer of `amount` to the deposit address: the token is its
-- address, and its topics are the event, the sender and the receiver, as the last 40 digits.
pub record IsTransferOf (contract deposit sender : Str) (log : RpcLog) (amount : ℕ) : Type 0 where
  pub token : to_lowercase log.address ≡ contract
  pub event : Str
  pub sent_from : Str
  pub sent_to : Str
  pub data_topics : List Str
  pub topics : log.topics ≡ event ∷ sent_from ∷ sent_to ∷ data_topics
  pub transfers : to_lowercase event ≡ transfer_topic0
  pub sender_is : topic_address sent_from ≡ sender
  pub receiver_is : topic_address sent_to ≡ deposit
  pub value : hex_to_u128 log.data_hex ≡ some amount

matched-IsTransferOf :
    (contract deposit sender : Str) (log : RpcLog) (topics : List Str) {amount : ℕ}
    → log.topics ≡ topics
    → IsMatched contract deposit sender log amount
    → IsTransferOf contract deposit sender log amount
unfolding is_transfer
matched-IsTransferOf contract deposit sender log [] e (h, v) = absurd (ground (arith, h, e))
matched-IsTransferOf contract deposit sender log (a ∷ []) e (h, v) = absurd (ground (arith, h, e))
matched-IsTransferOf contract deposit sender log (a ∷ b ∷ []) e (h, v) =
    absurd (ground (arith, h, e))
matched-IsTransferOf contract deposit sender log (a ∷ b ∷ c ∷ l) e (h, v) =
    let h' =
      subst (λ t. is_transfer (record log { topics = t }) contract deposit sender ≡ true) e h in
    record {
      token = (str_eq_iff (to_lowercase log.address) contract).0 (ground (arith, h'));
      event = a;
      sent_from = b;
      sent_to = c;
      data_topics = l;
      topics = e;
      transfers = (str_eq_iff (to_lowercase a) transfer_topic0).0 (ground (arith, h'));
      sender_is = (str_eq_iff (topic_address b) sender).0 (ground (arith, h'));
      receiver_is = (str_eq_iff (topic_address c) deposit).0 (ground (arith, h'));
      value = v;
    }

-- A genuine payment in a token.
abbrev pub IsTokenPayment : Str → Str → Str → Node → ℕ → Type 0
IsTokenPayment contract deposit addr node amount =
    (tx : RpcTx) × (receipt : RpcReceipt) × (log : RpcLog) × IsSent node addr tx
    × IsMined node receipt
    × Memᴰ log receipt.logs
    × IsTransferOf contract (without_0x deposit) (without_0x addr) log amount

transferred-passed :
    (receipt : RpcReceipt) (contract deposit addr : Str) {amount : ℕ}
    → transferred receipt contract deposit addr ≡ passed amount
    → match_transfer_log receipt.logs contract (without_0x deposit) (without_0x addr) ≡ some amount
unfolding transferred
transferred-passed receipt contract deposit addr h = ground arith

-- An amount of a token passes the checks only if the payment is genuine.
pub erc20_amount-IsTokenPayment :
    (contract deposit addr : Str) (node : Node) {amount : ℕ}
    → erc20_amount contract deposit addr node ≡ passed amount
    → IsTokenPayment contract deposit addr node amount
unfolding erc20_amount
erc20_amount-IsTokenPayment contract deposit addr node h =
    let (tx, t, h1) = bind-passed (transaction node.tx) _ h in
    let (_, s, h2) = bind-passed (check_sender tx addr) _ h1 in
    let (receipt, r, h3) = bind-passed (receipt_of node.receipt) _ h2 in
    let (block, m, h4) = bind-passed (mined receipt) _ h3 in
    let (a, f, h5) = bind-passed (transferred receipt contract deposit addr) _ h4 in
    let (_, c, h6) = bind-passed (confirmations node.head block) _ h5 in
    let (log, mem, (is, v)) =
      transfer_found contract (without_0x deposit) (without_0x addr) receipt.logs
        (transferred-passed receipt contract deposit addr f) in
    (
      tx,
      receipt,
      log,
      record { answer = transaction-passed node.tx t; sender = sender-passed tx addr s },
      mined-IsMined node receipt (receipt-passed node.receipt r) m c,
      mem,
      matched-IsTransferOf contract (without_0x deposit) (without_0x addr) log log.topics refl
          (is, v ∙ (ground arith)),
    )
