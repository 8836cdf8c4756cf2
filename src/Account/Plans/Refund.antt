-- ===== src/Account/Plans/Refund.antt =====
-- The prorated refund as a natural number.
use Prim.Native.Nat.{min}
use lets_embed.Prelude.{
  ◌∙◌, ℕ, ◌-◌, ◌*◌, ◌/◌, ◌≤◌, ◌<◌, ◌≡◌, inl, inr, true, Option, none, some, arith, Bool-cases,
  and_then, if◌then◌else◌,
}
use native.Mathlib.Nat.{mul-le-mul_left}
use lets_embed.Prelude.Int.{pos, pos_part, mul_ℕ, div_ℕ}
use lets_embed.Prelude.Words.{wrap_i64-eq_self, sub_u64, u64_mod}
use lets_embed.Config.{Plan, plan}
use lets_embed.Config.Listed.{period, stored_plan-cases}
use lets_embed.Account.Decide.{prorated_refund}
use lets_embed.Account.Storage.{Storage, period_end_of}
use lets_embed.Account.Status.{plan_active}
use lets_embed.Account.Plans.{refund_of}

-- The share of a price that `remaining` seconds of a period are worth.
unfoldable pub share : ℕ → ℕ → ℕ
share price remaining = price * min remaining period / period

pub share-le : (price remaining : ℕ) → share price remaining ≤ price
unfolding share
share-le price remaining =
    let capped : price * min remaining period ≤ price * period =
      mul-le-mul_left price (omega arith) in
    omega arith

pub share_mono : (price r t : ℕ) → r ≤ t → share price r ≤ share price t
unfolding share
share_mono price r t h = grind arith

pub share-period : (price : ℕ) → share price period ≡ price
unfolding share
share-period price = grind arith

prorated : (price n : ℕ) → div_ℕ (mul_ℕ (pos price) n) period ≡ pos (price * n / period)
prorated price n = ground arith

-- The refund of the source, at the prices and the period of the plans.
pub prorated_refund-eq-share :
    (price remaining : ℕ)
    → price ≤ 50000
    → prorated_refund (pos price) period remaining ≡ pos (share price remaining)
unfolding prorated_refund share
prorated_refund-eq-share price remaining h = rw (prorated price (min remaining period)) (
    wrap_i64-eq_self (pos (price * min remaining period / period))
      (omega (arith, share-le price remaining)) (omega arith))

-- The price of the stored plan, 0 with none or with one that is not listed.
abbrev listed_price : Option Plan → ℕ
listed_price none = 0
listed_price (some p) = pos_part p.price_points

unfoldable pub price_of : Storage → ℕ
price_of s = listed_price (and_then s.plan plan)

pub price_of-le : (s : Storage) → price_of s ≤ 50000
unfolding price_of
price_of-le s = elim (stored_plan-cases s.plan) [
  | inl e ↦ rw e (omega arith)
  | inr (p, e, listed) ↦ rw e listed.price_le
]

-- The points that cancelling at `now` gives back.
unfoldable pub unused : ℕ → Storage → ℕ
unused now s = if plan_active s now then share (price_of s) (period_end_of s - now) else 0

-- An active period ends after now, so the subtraction of the source does not wrap.
pub remaining_active :
    (now : ℕ) (s : Storage)
    → period_end_of s < u64_mod
    → plan_active s now ≡ true
    → sub_u64 (period_end_of s) now ≡ period_end_of s - now
unfolding plan_active
remaining_active now s h active = ground arith

refund_of_active :
    (now : ℕ) (s : Storage)
    → period_end_of s < u64_mod
    → plan_active s now ≡ true
    → refund_of now s ≡ pos (share (price_of s) (period_end_of s - now))
unfolding refund_of price_of
refund_of_active now s h active = elim (stored_plan-cases s.plan) [
  | inl e ↦ rw (active, e) (ground (arith, share-le 0 (period_end_of s - now)))
  | inr (p, e, listed) ↦
      rw (active, e, listed.price_points, listed.period_secs, remaining_active now s h active)
        (prorated_refund-eq-share (pos_part p.price_points) (period_end_of s - now) listed.price_le)
]

-- Whatever is stored, if the end of the period is within u64, the refund of the machine arithmetic
-- is the exact prorated price of an active plan, and 0 otherwise.
pub refund_of-eq-unused :
    (now : ℕ) (s : Storage) → period_end_of s < u64_mod → refund_of now s ≡ pos (unused now s)
unfolding refund_of unused
refund_of-eq-unused now s h = elim (Bool-cases (plan_active s now)) [
  | inl active ↦ refund_of_active now s h active ∙ (rw active)
  | inr idle ↦ rw idle
]

pub unused-le-price : (now : ℕ) (s : Storage) → unused now s ≤ price_of s
unfolding unused
unused-le-price now s = ground (arith, share-le (price_of s) (period_end_of s - now))

-- The refund only shrinks as time goes by.
pub unused_anti : (now later : ℕ) (s : Storage) → now ≤ later → unused later s ≤ unused now s
unfolding unused plan_active
unused_anti now later s h =
    ground (
      arith,
      share_mono (price_of s) (period_end_of s - later) (period_end_of s - now) (omega arith),
    )
