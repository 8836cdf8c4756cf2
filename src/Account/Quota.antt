-- ===== src/Account/Quota.antt =====
-- The quotas of a plan: what a window has used never passes what the plan allows.
pub mod Life
use lets_embed.Prelude.{
  ℕ, ◌+◌, ◌≤◌, ◌≡◌, ◌≢◌, refl, Bool, true, false, Option, none, some, arith, unwrap_or, and_then,
  is_some, ◌&&◌, inl, inr, Bool-cases, if◌then◌else◌,
}
use lets_embed.Prelude.Int.{ℤ, pos, negsuc, ◌≤ℤ◌}
use lets_embed.Prelude.Words.{add_i64-pos, i64_max}
use lets_embed.Prelude.Text.{Str}
use lets_embed.Config
use lets_embed.Config.{Plan, basic, pro, plan}
use lets_embed.Config.Listed.{plan-cases}
use lets_embed.Account.Wire.{ChargeKind, image, video, search, embed_search, Reply}
use lets_embed.Account.Decide.{
  ChargeSource, window, balance, free_unlimited, refuse, decide_charge, view_cost,
}
use lets_embed.Account.Storage.{Storage}
use lets_embed.Account.Charge.{Usage, rolled, counted, drawn, recorded}

abbrev pub ViewsWithin : Option ℤ → ℤ → Type 0
ViewsWithin none views = pos 0 ≤ℤ views
ViewsWithin (some limit) views = (pos 0 ≤ℤ views) × (views ≤ℤ limit)

-- Views and searches used, against a plan.
abbrev pub WithinQuota : Option Plan → ℤ → ℤ → Type 0
WithinQuota none views searches = Unit
WithinQuota (some p) views searches =
    ViewsWithin p.views_per_window views × (pos 0 ≤ℤ searches) × (searches ≤ℤ p.searches_per_window)

abbrev pub IsMetered : Storage → Type 0
IsMetered s =
    WithinQuota (and_then s.plan plan) (unwrap_or s.win_views (pos 0))
      (unwrap_or s.win_search (pos 0))

abbrev pub UsageWithin : Option Plan → Usage → Type 0
UsageWithin o u = WithinQuota o u.win_views u.win_search

-- A new window has used nothing.
zero_within : (id : Str) → WithinQuota (plan id) (pos 0) (pos 0)
zero_within id = elim (plan-cases id) [
  | inl e ↦ rw e tt
  | inr (inl e) ↦ rw e (omega arith)
  | inr (inr e) ↦ rw e (omega arith)
]

pub fresh_within : (o : Option Str) → WithinQuota (and_then o plan) (pos 0) (pos 0)
fresh_within none = tt
fresh_within (some id) = zero_within id

-- What the window is drawn for fits into the quota.
basic-counted :
    (kind : ChargeKind) (views searches funds : ℤ)
    → WithinQuota (some basic) views searches
    → decide_charge (some basic) true kind views searches funds (view_cost kind) ≡ window
    → (u : Usage) → u.win_views ≡ views
    → u.win_search ≡ searches
    → UsageWithin (some basic) (counted kind (view_cost kind) u)
unfolding decide_charge view_cost
basic-counted search (pos v) (pos q) funds w d u ev eq =
    rw (ev, eq) (ground (arith, add_i64-pos q 1))
basic-counted image (pos v) (pos q) funds w d u ev eq =
    rw (ev, eq) (ground (arith, add_i64-pos v 1))
basic-counted video (pos v) (pos q) funds w d u ev eq =
    rw (ev, eq) (ground (arith, add_i64-pos v 5))
basic-counted embed_search (pos v) (pos q) funds w d u ev eq =
    rw (ev, eq) (ground (arith, add_i64-pos v 10))
basic-counted _ (negsuc v) searches funds w d u ev eq = absurd (omega arith)
basic-counted _ views (negsuc q) funds w d u ev eq = absurd (omega arith)

pro-counted :
    (kind : ChargeKind) (views searches funds : ℤ)
    → WithinQuota (some pro) views searches
    → decide_charge (some pro) true kind views searches funds (view_cost kind) ≡ window
    → (u : Usage) → u.win_views ≡ views
    → u.win_search ≡ searches
    → UsageWithin (some pro) (counted kind (view_cost kind) u)
unfolding decide_charge view_cost
pro-counted search views (pos q) funds w d u ev eq = rw (ev, eq) (ground (arith, add_i64-pos q 1))
pro-counted _ views (negsuc q) funds w d u ev eq = absurd (omega arith)
pro-counted _ views searches funds w d u ev eq = cc

-- The plan that `charge` consults is the stored one if it is active, and none otherwise.
unplanned :
    (active : Bool) (kind : ChargeKind) (views searches funds cost : ℤ)
    → decide_charge none active kind views searches funds cost ≢ window
unfolding decide_charge
unplanned active kind views searches funds cost h = ground arith

module _ (kind : ChargeKind) (u : Usage) (funds : ℤ) where
  abbrev Fits : Option Plan → Type 0
  Fits o =
      UsageWithin o u
      → decide_charge o true kind u.win_views u.win_search funds (view_cost kind) ≡ window
      → UsageWithin o (counted kind (view_cost kind) u)

  plan-Fits : (id : Str) → Fits (plan id)
  plan-Fits id = elim (plan-cases id) [
    | inl e ↦ rw e (λ w d. tt)
    | inr (inl e) ↦ rw e (λ w d. basic-counted kind u.win_views u.win_search funds w d u refl refl)
    | inr (inr e) ↦ rw e (λ w d. pro-counted kind u.win_views u.win_search funds w d u refl refl)
  ]

  stored-Fits : (o : Option Str) → Fits (and_then o plan)
  stored-Fits none w d = tt
  stored-Fits (some id) w d = plan-Fits id w d

  -- A charge counts against the stored plan only what that plan still allows.
  pub drawn_within :
      (o : Option Str) (active : Bool) (source : ChargeSource)
      → decide_charge
          (if active then and_then o plan else none)
          active
          kind
          u.win_views
          u.win_search
          funds
          (view_cost kind)
        ≡ source
      → UsageWithin (and_then o plan) u
      → UsageWithin (and_then o plan) (drawn source kind (view_cost kind) u funds).0
  unfolding drawn
  drawn_within o true window d w = stored-Fits o w d
  drawn_within o false window d w = absurd (unplanned _ kind _ _ _ _ d)
  drawn_within o active balance d w = w
  drawn_within o active free_unlimited d w = w
  drawn_within o active refuse d w = w
