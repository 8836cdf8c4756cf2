-- ===== src/Config/Listed.antt =====
-- What holds of every plan that `config::plan` finds (user_worker/src/config.rs).
use lets_embed.Prelude.{
  ℕ, ◌*◌, ◌≤◌, ◌≡◌, refl, ◌⊎◌, inl, inr, Option, none, some, arith, and_then, Option-cases,
}
use lets_embed.Prelude.Int.{pos, pos_part}
use lets_embed.Prelude.Text.{Str, str_eq_iff}
use lets_embed.Config.{Plan, basic, pro, plan}

abbrev pub period : ℕ
period = 30 * 86400

-- A lookup finds nothing, or one of the two plans.
pub plan-cases : (id : Str) → (plan id ≡ none) ⊎ (plan id ≡ some basic) ⊎ (plan id ≡ some pro)
unfolding plan
plan-cases id = ground arith

-- A plan is found under its own name.
pub plan-id : (id : Str) (p : Plan) → plan id ≡ some p → p.id ≡ id
unfolding plan
plan-id id p h = ground (arith, str_eq_iff basic.id id, str_eq_iff pro.id id)

-- The facts about a listed plan that the proofs need.
pub record IsListed (p : Plan) : Type 0 where
  pub price_points : p.price_points ≡ pos (pos_part p.price_points)
  pub price_le : pos_part p.price_points ≤ 50000
  pub period_secs : p.period_secs ≡ period

pub plan-IsListed : (id : Str) (p : Plan) → plan id ≡ some p → IsListed p
unfolding plan
plan-IsListed id p h = record {
  price_points = ground arith;
  price_le = ground arith;
  period_secs = ground arith;
}

-- The plan of a stored identifier: none, or a listed one.
pub stored_plan-cases :
    (o : Option Str)
    → (and_then o plan ≡ none) ⊎ ((p : Plan) × (and_then o plan ≡ some p) × IsListed p)
stored_plan-cases none = inl refl
stored_plan-cases (some id) = elim (Option-cases (plan id)) [
  | inl e ↦ inl e
  | inr (p, e) ↦ inr (p, e, plan-IsListed id p e)
]
