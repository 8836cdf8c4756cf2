-- ===== src/Account/Solvent/Credit.antt =====
-- Credits and solvency. A credit adds what was paid in, and a deduction stops at zero.
use lets_embed.Prelude.{
  ℕ, suc, ◌+◌, ◌-◌, ◌≤◌, ◌≡◌, refl, Bool, true, false, none, some, arith, ltb, if◌then◌else◌,
}
use lets_embed.Prelude.Int.{ℤ, pos, negsuc, pos_part, neg_part, max_ℤ, ◌+ℤ◌}
use lets_embed.Prelude.Words.{add_i64, add_i64-pos, wrap_i64, wrap_i64-eq_self, i64_max, i64_half}
use lets_embed.Account.Storage.{Storage, balance_of}
use lets_embed.Prelude.Text.{str_eq_refl}
use lets_embed.Account.Wire.{CreditReq, balance_reply}
use lets_embed.Account.Credit.{credit}

-- The new balance of a credit, by exact arithmetic.
abbrev pub credited : ℕ → ℤ → ℕ
credited funds (pos n) = funds + n
credited funds (negsuc n) = funds - suc n

pub credited-le : (funds : ℕ) (points : ℤ) → credited funds points ≤ funds + pos_part points
credited-le funds (pos n) = omega arith
credited-le funds (negsuc n) = omega arith

deducted :
    (funds n : ℕ)
    → pos funds +ℤ negsuc n
      ≡ (if ltb funds (suc n) then negsuc (n - funds) else pos (funds - suc n))
unfolding ◌+ℤ◌
deducted funds n = ground arith

pub credited_lem :
    (funds : ℕ) (points : ℤ)
    → funds + pos_part points ≤ i64_max
    → neg_part points ≤ i64_half
    → max_ℤ (add_i64 (pos funds) points) (pos 0) ≡ pos (credited funds points)
credited_lem funds (pos n) h k = rw (add_i64-pos funds n h) (ground arith)
credited_lem funds (negsuc n) h k =
    let exact : wrap_i64 (pos funds +ℤ negsuc n) ≡ pos funds +ℤ negsuc n =
      wrap_i64-eq_self (pos funds +ℤ negsuc n) (ground (arith, deducted funds n))
        (ground (arith, deducted funds n)) in
    rw (exact, deducted funds n) (ground arith)

-- A credit under a fresh key adds its points, a negative one down to zero, and marks the key.
pub credit_fresh :
    (req : CreditReq) (s : Storage) {funds : ℕ}
    → s.credit req.key ≡ none
    → balance_of s ≡ pos funds
    → funds + pos_part req.points ≤ i64_max
    → neg_part req.points ≤ i64_half
    → let (reply, s') = credit req s in
      let n = credited funds req.points in
      (reply ≡ balance_reply (record { balance = pos n; applied = true }) 200)
      × (s'.balance ≡ some (pos n))
      × (s'.credit req.key ≡ some true)
unfolding credit
credit_fresh req s fresh holds h k =
    rw (fresh, holds, credited_lem _ req.points h k)
      (refl, refl, ground (arith, str_eq_refl req.key))

-- A credit under a key that is marked changes nothing.
pub credit_replay :
    (req : CreditReq) (s : Storage) {b : Bool}
    → s.credit req.key ≡ some b
    → credit req s ≡ (balance_reply (record { balance = balance_of s; applied = false }) 200, s)
unfolding credit
credit_replay req s marked = rw marked

-- A credit touches the balance and the markers only.
pub record OnlyCredit (s s' : Storage) : Type 0 where
  pub init : s'.init ≡ s.init
  pub plan : s'.plan ≡ s.plan
  pub period_end : s'.period_end ≡ s.period_end
  pub seen : s'.seen ≡ s.seen

pub credit-OnlyCredit : (req : CreditReq) (s : Storage) → OnlyCredit s (credit req s).1
unfolding credit
credit-OnlyCredit req s = record {
  init = ground arith;
  plan = ground arith;
  period_end = ground arith;
  seen = ground arith;
}
