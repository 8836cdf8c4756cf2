-- ===== src/Payments/Handlers.antt =====
-- The handler `topup` of user_worker/src/payments.rs, with its Solana branch.
use lets_embed.Prelude.{ℕ, Option, none, some, List, if◌then◌else◌}
use lets_embed.Prelude.Text.{Str, codes, str_key, trim, to_lowercase}
use lets_embed.Config.Tokens.{Chain, ethereum, solana, parse, TokenSpec, token}
use lets_embed.Payments.Chain.{
  Verdict, passed, rejected_for, released_with, ◌>>=◌, rpc_unavailable, too_early,
}
use lets_embed.Payments.Json.{Json}
use lets_embed.Session.{is_sol_principal}
use lets_embed.Payments.Solana.{
  SolOutcome, received, refused_for, wrong_sender, not_final, rpc_error, valid_signature,
  outcome_of,
}
use lets_embed.Payments.Flow.{
  World, Trip, TopupReply, api_err, resolve_price, worth, submit_verdict, topup_ethereum,
}

-- The row of `linked_solana`: the query fails, or gives the linked wallet if there is one.
pub data Linked : Type 0 where
  query_failed : Linked
  wallet : Option Str → Linked

-- What a Solana top-up meets outside besides: the linked wallet, and the answer of `getTransaction`,
-- `none` if its call fails.
pub record SolTrip : Type 0 where
  pub trip : Trip
  pub linked : Linked
  pub transaction : Option Json

-- The outcome of the verification as a verdict on the payment.
abbrev pub verdict_of : SolOutcome → Verdict ℕ
verdict_of (received amount) = passed amount
verdict_of (refused_for msg) = rejected_for msg
verdict_of wrong_sender = released_with 403 (codes "tx sender is not your linked Solana wallet")
verdict_of not_final = too_early
verdict_of (rpc_error msg) = rpc_unavailable

module _ (decode58 : Str → Option (List ℕ)) where
  -- The wallet that a top-up must come from, or the answer to a request without one.
  unfoldable pub linked_wallet : Linked → Str → Verdict Str
  linked_wallet query_failed addr = released_with 500 (codes "database error, retry later")
  linked_wallet (wallet (some l)) addr = passed l
  linked_wallet (wallet none) addr =
      if is_sol_principal decode58 addr
      then passed addr
      else released_with 400 (codes "link a Solana wallet before topping up with SOL/SPL")

  unfoldable pub checked_solana : SolTrip → TokenSpec → Str → Str → Verdict (ℕ × ℕ)
  checked_solana s spec deposit_address linked = do
    amount ← verdict_of (outcome_of s.transaction spec.contract deposit_address linked)
    price ← resolve_price spec s.trip.node
    points ← worth spec price amount
    passed (amount, points)

  -- A request that ends before it has inserted a row.
  abbrev with_wallet :
      Verdict Str → SolTrip → Str → Str → TokenSpec → Str → World → TopupReply × World
  with_wallet (passed linked) s deposit_address addr spec sig w =
      submit_verdict (checked_solana s spec deposit_address linked) s.trip addr spec sig w
  with_wallet (rejected_for msg) s deposit_address addr spec sig w = (api_err 400 msg, w)
  with_wallet (released_with status msg) s deposit_address addr spec sig w = (api_err status msg, w)

  -- `topup_solana` of payments.rs.
  unfoldable pub topup_solana : Str → SolTrip → Str → TokenSpec → Str → World → TopupReply × World
  topup_solana deposit_address s addr spec signature_in w =
      let sig = trim signature_in in
      if valid_signature decode58 sig
      then with_wallet (linked_wallet s.linked addr) s deposit_address addr spec sig w
      else (api_err 400 (codes "invalid transaction signature"), w)

  abbrev by_chain : Chain → Str → Str → SolTrip → Str → TokenSpec → Str → World → TopupReply × World
  by_chain ethereum deposit sol_deposit s addr spec tx_hash_in w =
      topup_ethereum deposit s.trip addr spec tx_hash_in w
  by_chain solana deposit sol_deposit s addr spec tx_hash_in w =
      topup_solana sol_deposit s addr spec tx_hash_in w

  abbrev with_token :
      Option TokenSpec → Chain → Str → Str → SolTrip → Str → Str → World → TopupReply × World
  with_token none chain deposit sol_deposit s addr tx_hash_in w =
      (api_err 400 (codes "unsupported token"), w)
  with_token (some spec) chain deposit sol_deposit s addr tx_hash_in w =
      by_chain chain deposit sol_deposit s addr spec tx_hash_in w

  abbrev with_chain :
      Option Chain → Str → Str → SolTrip → Str → Str → Str → World → TopupReply × World
  with_chain none deposit sol_deposit s addr symbol tx_hash_in w =
      (api_err 400 (codes "unsupported chain"), w)
  with_chain (some chain) deposit sol_deposit s addr symbol tx_hash_in w =
      with_token (token chain (to_lowercase (trim symbol))) chain deposit sol_deposit s addr
        tx_hash_in w

  -- `topup`, from the session's address.
  unfoldable pub topup :
      Str → Str → SolTrip → Option Str → Str → Str → Str → World → TopupReply × World
  topup deposit sol_deposit s none chain symbol tx_hash_in w =
      (api_err 401 (codes "login required"), w)
  topup deposit sol_deposit s (some addr) chain symbol tx_hash_in w =
      with_chain (parse chain) deposit sol_deposit s addr symbol tx_hash_in w
