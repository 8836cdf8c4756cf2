-- ===== src/Account/Charge/Frame.antt =====
-- What a charge leaves alone, and that it never panics.
use lets_embed.Prelude.{ℕ, ◌≡◌, refl, false, arith, unwrap_or, inl, inr, Bool-cases}
use lets_embed.Prelude.Int.{ℤ}
use lets_embed.Prelude.Text.{Str}
use lets_embed.Account.Wire.{ChargeReq, Reply}
use lets_embed.Account.Decide.{ChargeSource, refuse}
use lets_embed.Account.Storage.{Storage, balance_of}
use lets_embed.Account.Status.{ensure_init}
use lets_embed.Account.Charge.{
  Usage, is_repeat, recorded, settled, source_of, charge_new, charge_open, charge,
}

-- The keys of an account that no charge writes.
pub record SameAccount (s s' : Storage) : Type 0 where
  pub init : s'.init ≡ s.init
  pub address : s'.address ≡ s.address
  pub plan : s'.plan ≡ s.plan
  pub period_end : s'.period_end ≡ s.period_end
  pub banned : s'.banned ≡ s.banned
  pub credit : s'.credit ≡ s.credit
  pub alarm : s'.alarm ≡ s.alarm

pub SameAccount-refl : (s : Storage) → SameAccount s s
SameAccount-refl s = record {
  init = refl;
  address = refl;
  plan = refl;
  period_end = refl;
  banned = refl;
  credit = refl;
  alarm = refl;
}

recorded-SameAccount :
    (now : ℕ) (path : Str) (u : Usage) (funds : ℤ) (s : Storage) (reply : Reply)
    → SameAccount s (recorded now path u funds s reply).1
unfolding recorded
recorded-SameAccount now path u funds s reply = record {
  init = ground arith;
  address = ground arith;
  plan = ground arith;
  period_end = ground arith;
  banned = ground arith;
  credit = ground arith;
  alarm = ground arith;
}

-- The write of the balance.
pub balance-recorded :
    (now : ℕ) (path : Str) (u : Usage) (funds : ℤ) (s : Storage) (reply : Reply)
    → balance_of (recorded now path u funds s reply).1 ≡ funds
unfolding recorded
balance-recorded now path u funds s reply = ground arith

settled-SameAccount :
    (source : ChargeSource) (now : ℕ) (req : ChargeReq) (s : Storage)
    → SameAccount s (settled source now req s).1
unfolding settled
settled-SameAccount refuse now req s = SameAccount-refl s
settled-SameAccount _ now req s = recorded-SameAccount now req.path _ _ s _

charge_open-SameAccount :
    (now : ℕ) (req : ChargeReq) (s : Storage) → SameAccount s (charge_open now req s).1
unfolding charge_open charge_new
charge_open-SameAccount now req s = elim (Bool-cases (is_repeat now req.path s)) [
  | inl e ↦ rw e (SameAccount-refl s)
  | inr e ↦ rw e (settled-SameAccount (source_of now req s) now req s)
]

-- Past the free grant, a charge changes neither the plan and its end, the ban, the address, the
-- credit markers nor the alarm.
pub charge-SameAccount :
    (now : ℕ) (req : ChargeReq) (s : Storage) → SameAccount (ensure_init s) (charge now req s).1
unfolding charge
charge-SameAccount now req s = elim (Bool-cases (unwrap_or (ensure_init s).banned false)) [
  | inl e ↦ rw e (SameAccount-refl (ensure_init s))
  | inr e ↦ rw e (charge_open-SameAccount now req (ensure_init s))
]
