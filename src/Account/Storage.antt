-- ===== src/Account/Storage.antt =====
-- The storage of one account object: a field for each key of user_worker/src/account_do.rs, `none`
-- while the key is absent. The maps `seen:{day}` and the markers `credit:{key}` are tables.
use lets_embed.Prelude.{ℕ, Bool, Option, none, unwrap_or, Table, empty}
use lets_embed.Prelude.Int.{ℤ, pos}
use lets_embed.Prelude.Text.{Str}
use lets_embed.Account.Decide.{SeenMap}

pub record Storage : Type 0 where
  pub init : Option Bool
  pub address : Option Str
  pub balance : Option ℤ
  pub plan : Option Str
  pub period_end : Option ℕ
  pub win_start : Option ℕ
  pub win_views : Option ℤ
  pub win_search : Option ℤ
  pub banned : Option Bool
  pub total_views : Option ℤ
  pub seen : Table ℕ SeenMap
  pub credit : Table Str Bool
  -- The offset in milliseconds that the last `set_alarm` was given.
  pub alarm : Option ℤ

-- An object that no request has touched.
abbrev pub untouched : Storage
untouched = record {
  init = none;
  address = none;
  balance = none;
  plan = none;
  period_end = none;
  win_start = none;
  win_views = none;
  win_search = none;
  banned = none;
  total_views = none;
  seen = empty;
  credit = empty;
  alarm = none;
}

abbrev pub balance_of : Storage → ℤ
balance_of s = unwrap_or s.balance (pos 0)

abbrev pub period_end_of : Storage → ℕ
period_end_of s = unwrap_or s.period_end 0
