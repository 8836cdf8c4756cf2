-- ===== src/Account/Credit.antt =====
-- `UserAccount::credit` of user_worker/src/account_do.rs: an idempotent top-up or deduction.
pub mod Exact
use lets_embed.Prelude.{Bool, true, false, Option, none, some, put}
use lets_embed.Prelude.Int.{pos, max_ℤ}
use lets_embed.Prelude.Words.{add_i64}
use lets_embed.Prelude.Text.{str_key}
use lets_embed.Account.Wire.{CreditReq, Reply, balance_reply}
use lets_embed.Account.Storage.{Storage, balance_of}

abbrev credit_marked : Option Bool → CreditReq → Storage → Reply × Storage
credit_marked (some _) req s =
    (balance_reply (record { balance = balance_of s; applied = false }) 200, s)
credit_marked none req s =
    let funds = max_ℤ (add_i64 (balance_of s) req.points) (pos 0) in
    (
      balance_reply (record { balance = funds; applied = true }) 200,
      record s { balance = some funds; credit = put req.key true s.credit },
    )

unfoldable pub credit : CreditReq → Storage → Reply × Storage
credit req s = credit_marked (s.credit req.key) req s
