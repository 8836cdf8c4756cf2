-- ===== src/Payments/Flow.antt =====
-- The life of a payment row and the Ethereum top-ups of user_worker/src/payments.rs. The rows stand
-- in the table `payments` with the hash as their key; the accounts are the objects that a credit
-- reaches by the address.
use lets_embed.Prelude.{
  ℕ, Bool, not, Option, none, some, is_some, Table, put, delete, ◌++◌, if◌then◌else◌,
}
use lets_embed.Prelude.Int.{ℤ, pos, ltb_ℤ}
use lets_embed.Prelude.Text.{Str, codes, str_eq, str_key, trim, to_lowercase}
use lets_embed.Config
use lets_embed.Config.Tokens.{TokenSpec, as_str}
use lets_embed.Rates.{points_for}
use lets_embed.Account.Wire.{CreditReq, Reply, balance_reply}
use lets_embed.Account.Storage.{Storage}
use lets_embed.Account.Credit.{credit}
use lets_embed.Payments.Chain.{
  Verdict, passed, rejected_for, released_with, ◌>>=◌, rpc_unavailable, Node, valid_tx_hash,
  native_amount, erc20_amount,
}

pub data Status : Type 0 where
  pending credited rejected : Status

pub record PaymentRow : Type 0 where
  pub address : Str
  pub chain : Str
  pub token : Str
  pub amount : ℕ
  pub points : ℕ
  pub status : Status
  pub created_at : ℕ

pub record World : Type 0 where
  pub payments : Table Str PaymentRow
  pub accounts : Str → Storage

-- What becomes of the call of the account object: it is answered, or it fails before or after the
-- object has handled it.
pub data Delivery : Type 0 where
  answered lost_before lost_after : Delivery

-- What one request meets outside the worker: the node, the clock, which statements the database
-- carries out, and the call of the object.
pub record Trip : Type 0 where
  pub node : Node
  pub now : ℕ
  pub insert_ok : Bool
  pub update_ok : Bool
  pub delete_ok : Bool
  pub delivery : Delivery

pub data TopupReply : Type 0 where
  topup_resp : ℕ → ℤ → TopupReply
  api_err : ℕ → Str → TopupReply

abbrev updated :
    (PaymentRow → PaymentRow)
    → Str
    → Option PaymentRow
    → Table Str PaymentRow
    → Table Str PaymentRow
updated f tx_hash none rows = rows
updated f tx_hash (some row) rows = put tx_hash (f row) rows

-- `UPDATE payments ... WHERE tx_hash = ?`, if the database carries it out.
abbrev pub update_row : Bool → (PaymentRow → PaymentRow) → Str → World → World
update_row done f tx_hash w =
    if done then record w { payments = updated f tx_hash (w.payments tx_hash) w.payments } else w

-- `reject`: an error of the update is only logged.
unfoldable pub reject : Bool → Str → World → World
reject done tx_hash w = update_row done (λ row. record row { status = rejected }) tx_hash w

abbrev pending_deleted : Str → Option PaymentRow → Table Str PaymentRow → Table Str PaymentRow
pending_deleted tx_hash none rows = rows
pending_deleted tx_hash (some row) rows = elim row.status [
  | pending ↦ delete tx_hash rows
  | credited ↦ rows
  | rejected ↦ rows
]

-- `delete_pending`.
unfoldable pub delete_pending : Bool → Str → World → World
delete_pending done tx_hash w =
    if done
    then record w { payments = pending_deleted tx_hash (w.payments tx_hash) w.payments }
    else w

-- The key of a top-up: `tx:{hash}`.
abbrev pub credit_req : Str → ℕ → CreditReq
credit_req tx_hash points = record {
  points = pos points;
  key = codes "tx:" ++ tx_hash;
  reason = codes "topup";
}

abbrev pub with_account : Str → Storage → World → World
with_account addr s w = record w { accounts = λ a. if str_eq a addr then s else w.accounts a }

-- The object answers a credit with a `BalanceResp` always.
abbrev reported : Reply → ℤ
reported (balance_reply resp status) = resp.balance
reported _ = pos 0

-- The object's part of `finalize_credit`.
unfoldable pub credited_account : Str → Str → ℕ → World → World
credited_account addr tx_hash points w =
    with_account addr (credit (credit_req tx_hash points) (w.accounts addr)).1 w

unfoldable pub finalize_row : Bool → Str → ℕ → ℕ → World → World
finalize_row done tx_hash amount points w =
    update_row done (λ row. record row { amount = amount; points = points; status = credited })
      tx_hash w

-- `finalize_credit` at what becomes of its call; a failed call is answered 500.
unfoldable pub delivered : Delivery → Trip → Str → Str → ℕ → ℕ → World → TopupReply × World
delivered answered trip addr tx_hash amount points w = (
  topup_resp points (reported (credit (credit_req tx_hash points) (w.accounts addr)).0),
  finalize_row trip.update_ok tx_hash amount points (credited_account addr tx_hash points w),
)
delivered lost_before trip addr tx_hash amount points w =
    (api_err 500 (codes "credit failed, retry later"), delete_pending trip.delete_ok tx_hash w)
delivered lost_after trip addr tx_hash amount points w = (
  api_err 500 (codes "credit failed, retry later"),
  delete_pending trip.delete_ok tx_hash (credited_account addr tx_hash points w),
)

abbrev pub finalize_credit : Trip → Str → Str → ℕ → ℕ → World → TopupReply × World
finalize_credit trip addr tx_hash amount points w =
    delivered trip.delivery trip addr tx_hash amount points w

-- `resolve_price`, before its release of the row.
unfoldable pub resolve_price : TokenSpec → Node → Verdict (Option ℕ)
resolve_price spec node = elim spec.feed [
  | none ↦ passed none
  | some feed ↦ elim node.feed_price [ none ↦ rpc_unavailable | some price ↦ passed (some price) ]
]

-- The points of an amount, if they reach the minimum.
unfoldable pub worth : TokenSpec → Option ℕ → ℕ → Verdict ℕ
worth spec price amount =
    let points = points_for amount spec.decimals price in
    if ltb_ℤ (pos points) Config.min_topup_points
    then rejected_for (codes "amount below minimum top-up")
    else passed points

abbrev pub amount_on_chain : TokenSpec → Str → Str → Node → Verdict ℕ
amount_on_chain spec deposit_address addr node = elim spec.contract [
  | none ↦ native_amount deposit_address addr node
  | some contract ↦ erc20_amount contract deposit_address addr node
]

-- All that a top-up checks after it has locked the hash: the amount and its points.
unfoldable pub checked : TokenSpec → Str → Str → Node → Verdict (ℕ × ℕ)
checked spec deposit_address addr node = do
  amount ← amount_on_chain spec deposit_address addr node
  price ← resolve_price spec node
  points ← worth spec price amount
  passed (amount, points)

-- The row that a verdict leaves behind, and the answer.
unfoldable pub conclude : Verdict (ℕ × ℕ) → Trip → Str → Str → World → TopupReply × World
conclude (passed (amount, points)) trip addr tx_hash w =
    finalize_credit trip addr tx_hash amount points w
conclude (rejected_for msg) trip addr tx_hash w = (api_err 400 msg, reject trip.update_ok tx_hash w)
conclude (released_with status msg) trip addr tx_hash w =
    (api_err status msg, delete_pending trip.delete_ok tx_hash w)

abbrev pub new_row : TokenSpec → Str → ℕ → PaymentRow
new_row spec addr now = record {
  address = addr;
  chain = as_str spec.chain;
  token = spec.symbol;
  amount = 0;
  points = 0;
  status = pending;
  created_at = now;
}

-- Step 2 on: the insert locks the hash, and fails on a row that is there; then the verdict of the
-- checks is concluded.
abbrev pub submit_verdict :
    Verdict (ℕ × ℕ) → Trip → Str → TokenSpec → Str → World → TopupReply × World
submit_verdict verdict trip addr spec tx_hash w =
    if not trip.insert_ok
    then (api_err 500 (codes "database error, retry later"), w)
    else if is_some (w.payments tx_hash)
    then (api_err 409 (codes "tx already submitted"), w)
    else conclude verdict trip addr tx_hash
        (record w { payments = put tx_hash (new_row spec addr trip.now) w.payments })

unfoldable pub submit : Str → Trip → Str → TokenSpec → Str → World → TopupReply × World
submit deposit_address trip addr spec tx_hash w =
    submit_verdict (checked spec deposit_address addr trip.node) trip addr spec tx_hash w

-- `topup_ethereum` and `topup_erc20`.
unfoldable pub topup_ethereum : Str → Trip → Str → TokenSpec → Str → World → TopupReply × World
topup_ethereum deposit_address trip addr spec tx_hash_in w =
    let tx_hash = to_lowercase (trim tx_hash_in) in
    if valid_tx_hash tx_hash
    then submit deposit_address trip addr spec tx_hash w
    else (api_err 400 (codes "invalid tx hash"), w)
