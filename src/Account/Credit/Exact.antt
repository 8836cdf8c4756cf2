-- ===== src/Account/Credit/Exact.antt =====
-- What `UserAccount::credit` of user_worker/src/account_do.rs does at a new key, in exact arithmetic.
use lets_embed.Prelude.{◌≡◌, refl, true, none, some, put}
use lets_embed.Prelude.Int.{pos, max_ℤ, ◌+ℤ◌}
use lets_embed.Prelude.Words.{InI64, wrap_i64-eq_self}
use lets_embed.Prelude.Text.{str_key}
use lets_embed.Account.Wire.{CreditReq}
use lets_embed.Account.Storage.{Storage, balance_of}
use lets_embed.Account.Credit.{credit}

-- An account with the points of a request added, and no less than 0, under the mark of its key.
abbrev pub with_points : CreditReq → Storage → Storage
with_points req s = record s {
  balance = some (max_ℤ (balance_of s +ℤ req.points) (pos 0));
  credit = put req.key true s.credit;
}

-- The object applies a credit whose key it has not seen.
pub credit-eq-with_points :
    (req : CreditReq) (s : Storage)
    → s.credit req.key ≡ none
    → InI64 (balance_of s +ℤ req.points)
    → (credit req s).1 ≡ with_points req s
unfolding credit
credit-eq-with_points req s fresh (high, low) =
    rw (fresh, wrap_i64-eq_self (balance_of s +ℤ req.points) high low) refl
