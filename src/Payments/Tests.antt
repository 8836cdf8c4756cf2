-- ===== src/Payments/Tests.antt =====
-- Top-ups of user_worker/src/payments.rs at concrete transactions.
use lets_embed.Prelude.{arith, List, ◌≡◌, refl, true, some, none, [], ◌∷◌, empty}
use lets_embed.Prelude.Int.{pos, ◌+ℤ◌}
use lets_embed.Prelude.Words.{wrap_i64, InI64}
use lets_embed.Prelude.Hex.{from_str_radix_16, parse_digits, to_digit}
use lets_embed.Rates.{points_for}
use lets_embed.Account.Credit.{credit}
use lets_embed.Prelude.Text.{Str, codes, str_key, str_eq, trim, lower, to_lowercase, strip_prefix}
use lets_embed.Config.Tokens.{ethereum, TokenSpec, feed_eth_usd}
use lets_embed.Account.Storage.{untouched, balance_of}
use lets_embed.Payments.Chain.{
  passed, RpcTx, RpcLog, RpcReceipt, found, null_result, Node, released_with, rejected_for,
  valid_tx_hash, transfer_topic0, hex_to_u128, hex_to_u64, is_transfer, topic_address,
  native_amount, verify_native_tx, check_sender, mined, confirmations,
}
use lets_embed.Payments.Flow.{
  World, answered, lost_after, Trip, topup_resp, api_err, submit, topup_ethereum, checked,
  delivered, resolve_price, worth, conclude, finalize_row, credited_account, credit_req,
}
use lets_embed.Payments.Lock.{
  Task, System, first, locked_world, concluded, begin, stay, more, NotRunning,
}
use lets_embed.Payments.Once.{refusal, credited_once}
use lets_embed.Payments.Credited.{IsEarned, topup_credited}
use lets_embed.Payments.Retry.{SameWorld, released_restores}
use lets_embed.Payments.Retry.Lost.{lost_answer_paid_once}
use lets_embed.Account.Credit.Exact.{with_points}
use lets_embed.Account.Object.{Tick, run, on_status, on_unsubscribe}
use lets_embed.Payments.Transfers.{IsMatched}

abbrev ether : TokenSpec
ether = record {
  chain = ethereum;
  symbol = codes "eth";
  decimals = 18;
  contract = none;
  feed = some feed_eth_usd;
}

abbrev deposit : Str
deposit = codes "0xd0"

abbrev payer : Str
payer = codes "0xa1"

abbrev tx_hash : Str
tx_hash = codes "0x00112233445566778899aabbccddeeff00112233445566778899aabbccddeeff"

abbrev one_ether : RpcTx
one_ether = record {
  sender = codes "0xA1";
  to = some (codes "0xD0");
  value = codes "0xde0b6b3a7640000";
}

abbrev success : RpcReceipt
success = record { status = some (codes "0x1"); block_number = some (codes "0x10"); logs = [] }

abbrev mainnet : Node
mainnet = record {
  tx = found one_ether;
  receipt = found success;
  head = some (some (codes "0x15"));
  feed_price = some 300000000000;
}

abbrev trip_of : Node → Trip
trip_of node = record {
  node = node;
  now = 1700000000;
  insert_ok = true;
  update_ok = true;
  delete_ok = true;
  delivery = answered;
}

abbrev nothing : World
nothing = record { payments = empty; accounts = λ a. untouched }

abbrev task : Task
task = record { addr = payer; spec = ether; tx_hash = tx_hash }

paid :
    (topup_ethereum deposit (trip_of mainnet) payer ether tx_hash nothing).0
    ≡ topup_resp 30000000 (pos 30000000)
unfolding topup_ethereum submit valid_tx_hash trim checked native_amount verify_native_tx str_eq
    to_lowercase lower hex_to_u128 strip_prefix from_str_radix_16 parse_digits to_digit check_sender
    mined hex_to_u64 confirmations resolve_price worth points_for conclude delivered finalize_row
    credited_account credit ◌+ℤ◌ wrap_i64
paid = refl

topup_credited_example :
    let h = to_lowercase (trim tx_hash) in
    (valid_tx_hash h ≡ true)
    × (nothing.payments h ≡ none)
    × IsEarned ether deposit payer mainnet 30000000
topup_credited_example =
    topup_credited deposit (trip_of mainnet) payer ether tx_hash nothing {n = 30000000}
      {b = pos 30000000} paid

abbrev start : System
start = record { world = nothing; tasks = [] }

abbrev locked_start : World
locked_start = locked_world (trip_of mainnet) task nothing

concluded_paid :
    (concluded deposit (trip_of mainnet) task locked_start).0 ≡ topup_resp 30000000 (pos 30000000)
unfolding checked native_amount verify_native_tx str_eq to_lowercase lower hex_to_u128 strip_prefix
    from_str_radix_16 parse_digits to_digit check_sender mined hex_to_u64 confirmations
    resolve_price worth points_for conclude delivered finalize_row credited_account credit ◌+ℤ◌
    wrap_i64
concluded_paid = refl

credited_once_example :
    NotRunning tx_hash []
    × ((addr : Str) (spec : TokenSpec)
        → submit deposit
            (trip_of mainnet)
            addr
            spec
            tx_hash
            (concluded deposit (trip_of mainnet) task locked_start).1
          ≡ (refusal (trip_of mainnet), (concluded deposit (trip_of mainnet) task locked_start).1))
credited_once_example =
    credited_once deposit (trip_of mainnet) (trip_of mainnet) task locked_start (task ∷ []) [] start
      (record { world = (concluded deposit (trip_of mainnet) task locked_start).1; tasks = [] })
      {n = 30000000} {b = pos 30000000} tt
      (more (begin (trip_of mainnet) task nothing [] refl) stay) first concluded_paid stay

abbrev not_mined : Node
not_mined = record mainnet { receipt = null_result }

too_soon :
    checked ether deposit payer not_mined
    ≡ released_with 425 (codes "not enough confirmations yet, retry later")
unfolding checked native_amount verify_native_tx str_eq to_lowercase hex_to_u128 strip_prefix
    from_str_radix_16 parse_digits to_digit check_sender
too_soon = refl

released_restores_example :
    ((submit deposit (trip_of not_mined) payer ether tx_hash nothing).0
      ≡ api_err 425 (codes "not enough confirmations yet, retry later"))
    × SameWorld nothing (submit deposit (trip_of not_mined) payer ether tx_hash nothing).1
released_restores_example =
    released_restores deposit (trip_of not_mined) payer ether tx_hash nothing refl refl refl
      too_soon

abbrev elsewhere : Node
elsewhere = record mainnet { tx = found (record one_ether { to = some (codes "0xe0") }) }

astray :
    checked ether deposit payer elsewhere
    ≡ rejected_for (codes "tx recipient is not the deposit address")
unfolding checked native_amount verify_native_tx str_eq to_lowercase
astray = refl

verdict : checked ether deposit payer mainnet ≡ passed (1000000000000000000, 30000000)
unfolding checked native_amount verify_native_tx str_eq to_lowercase lower hex_to_u128 strip_prefix
    from_str_radix_16 parse_digits to_digit check_sender mined hex_to_u64 confirmations
    resolve_price worth points_for
verdict = refl

-- The answer is lost, the account object works on, and the payer sends the hash again.
abbrev lossy : Trip
lossy = record (trip_of mainnet) { delivery = lost_after }

abbrev later_events : List Tick
later_events =
    record { now = 1700000100; later = 1700000100; event = on_status }
    ∷ record { now = 1700000200; later = 1700000200; event = on_unsubscribe }
    ∷ []

abbrev later_world : World
later_world = record {
  payments = empty;
  accounts =
      λ a. run later_events ((submit deposit lossy payer ether tx_hash nothing).1.accounts a);
}

topup_fits : InI64 (balance_of untouched +ℤ pos 30000000)
unfolding ◌+ℤ◌
topup_fits = (omega arith, omega arith)

lost_answer_paid_once_example :
    let (reply, w1) = submit deposit lossy payer ether tx_hash nothing in
    (reply ≡ api_err 500 (codes "credit failed, retry later"))
    × (w1.accounts payer ≡ with_points (credit_req tx_hash 30000000) untouched)
    × (w1.payments tx_hash ≡ none)
    × ((a : Str)
        → (submit deposit (trip_of mainnet) payer ether tx_hash later_world).1.accounts a
          ≡ later_world.accounts a)
lost_answer_paid_once_example =
    lost_answer_paid_once deposit lossy payer tx_hash ether nothing {amount = 1000000000000000000}
      {points = 30000000} refl refl refl verdict later_world later_events refl (trip_of mainnet)
      ether refl topup_fits

abbrev usdt : Str
usdt = codes "0xdac17f958d2ee523a2206206994597c13d831ec7"

abbrev transfer : RpcLog
transfer = record {
  address = usdt;
  topics =
      transfer_topic0
      ∷ codes "0x000000000000000000000000aaaaaaaaaaaaaaaaaaaaaaaaaaaaaaaaaaaaaaaa"
      ∷ codes "0x000000000000000000000000dddddddddddddddddddddddddddddddddddddddd"
      ∷ [];
  data_hex = codes "0x1e8480";
}

abbrev approval : RpcLog
approval = record transfer { topics = [] }

transfer_seen :
    IsMatched usdt
      (codes "dddddddddddddddddddddddddddddddddddddddd")
      (codes "aaaaaaaaaaaaaaaaaaaaaaaaaaaaaaaaaaaaaaaa")
      transfer
      2000000
unfolding is_transfer hex_to_u128 str_eq to_lowercase topic_address strip_prefix from_str_radix_16
    parse_digits to_digit
transfer_seen = (refl, refl)
