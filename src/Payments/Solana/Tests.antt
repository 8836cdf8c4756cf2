-- ===== src/Payments/Solana/Tests.antt =====
-- Transactions of user_worker/src/solana.rs at concrete JSON.
use lets_embed.Prelude.{◌≡◌, refl, none}
use lets_embed.Prelude.Text.{codes, str_eq}
use lets_embed.Payments.Json.{Json, null, number, text, array, object, item, end, member, no_more}
use lets_embed.Payments.Solana.{received, verify_solana, native_received}
use lets_embed.Payments.Solana.Received.{IsSolPayment, verify_solana-received}

abbrev result : Json
result = object (
    member (codes "meta")
      (object (
        member (codes "err") null (
          member (codes "preBalances")
            (array (item (number 1000000000) (item (number 5000000000) end)))
            (member (codes "postBalances")
              (array (item (number 999995000) (item (number 6000000000) end))) no_more))))
      (member (codes "transaction")
        (object (
          member (codes "message")
            (object (
              member (codes "accountKeys")
                (array (item (text (codes "linked")) (item (text (codes "deposit")) end))) no_more))
            no_more))
        no_more))

one_sol : verify_solana result none (codes "deposit") (codes "linked") ≡ received 1000000000
unfolding verify_solana native_received str_eq
one_sol = refl

verify_solana-received_example : IsSolPayment result (codes "deposit") (codes "linked") 1000000000
verify_solana-received_example =
    verify_solana-received result (codes "deposit") (codes "linked") {amount = 1000000000} one_sol
