-- ===== src/Login/Users.antt =====
-- The table `users` (user_worker/migrations/0001_users.sql) and the statements that the handlers of
-- user_worker/src/auth.rs, user_worker/src/solana_link.rs, user_worker/src/admin.rs and
-- user_worker/src/payments.rs make on it.
use lets_embed.Prelude.{
  ℕ, Bool, false, not, Option, none, some, List, [], ◌∷◌, any, find, ◌==◌, if◌then◌else◌,
}
use lets_embed.Prelude.Text.{Str, str_eq}

pub record UserRow : Type 0 where
  pub address : Str
  pub created_at : ℕ
  pub last_login : ℕ
  pub plan : Option Str
  pub banned : ℕ
  pub solana_address : Option Str

abbrev pub Users : Type 0
Users = List UserRow

abbrev pub has_address : Str → UserRow → Bool
has_address a row = str_eq row.address a

abbrev pub is_wallet : Str → Option Str → Bool
is_wallet w none = false
is_wallet w (some s) = str_eq s w

abbrev pub has_wallet : Str → UserRow → Bool
has_wallet w row = is_wallet w row.solana_address

-- Whether `SELECT address FROM users WHERE address = ?` has a row.
abbrev pub is_known : Str → Users → Bool
is_known a us = any (has_address a) us

-- Whether `SELECT address FROM users WHERE solana_address = ?` has a row, and that row.
abbrev pub is_linked : Str → Users → Bool
is_linked w us = any (has_wallet w) us

abbrev pub owner_of : Str → Users → Option UserRow
owner_of w us = find (has_wallet w) us

-- `INSERT INTO users ... ON CONFLICT(address) DO UPDATE SET last_login = ...`.
abbrev new_row : Str → ℕ → UserRow
new_row a now = record {
  address = a;
  created_at = now;
  last_login = now;
  plan = none;
  banned = 0;
  solana_address = none;
}

unfoldable pub upsert : Str → ℕ → Users → Users
upsert a now [] = new_row a now ∷ []
upsert a now (row ∷ us) =
    let rest = upsert a now us in
    if has_address a row then record row { last_login = now } ∷ us else row ∷ rest

-- `SELECT banned FROM users WHERE address = ?`, with no row for not banned.
abbrev pub is_banned : Str → Users → Bool
is_banned a us = elim (find (has_address a) us) [ none ↦ false | some row ↦ not (row.banned == 0) ]

-- `UPDATE users SET solana_address = ? WHERE address = ?`.
unfoldable pub set_wallet : Option Str → Str → Users → Users
set_wallet o a [] = []
set_wallet o a (row ∷ us) =
    (if has_address a row then record row { solana_address = o } else row) ∷ set_wallet o a us

-- `UPDATE users SET banned = ? WHERE address = ?`, and the same for the column `plan`.
unfoldable pub set_banned : ℕ → Str → Users → Users
set_banned b a [] = []
set_banned b a (row ∷ us) =
    (if has_address a row then record row { banned = b } else row) ∷ set_banned b a us

unfoldable pub set_plan : Option Str → Str → Users → Users
set_plan o a [] = []
set_plan o a (row ∷ us) =
    (if has_address a row then record row { plan = o } else row) ∷ set_plan o a us
