-- ===== src/Account/Report.antt =====
-- The status report of user_worker/src/account_do.rs against the charges: quota that is reported as
-- left can be used, and costs no points.
use lets_embed.Prelude.{
  ℕ, ◌≤◌, ◌≡◌, ◌≢◌, refl, sym, ◌∙◌, true, false, Option, none, some, arith, and_then, inl, inr,
  Bool-cases,
}
use lets_embed.Prelude.Int.{ℤ, pos, negsuc}
use lets_embed.Prelude.Words.{add_i64-pos, sub_i64-pos}
use lets_embed.Prelude.Text.{Str}
use lets_embed.Config.{basic, pro, plan}
use lets_embed.Config.Listed.{plan-cases}
use lets_embed.Account.Wire.{ChargeKind, image, video, search, embed_search, ChargeReq, StatusResp}
use lets_embed.Account.Decide.{
  window, decide_charge, view_cost, should_roll, views_remaining, searches_remaining,
}
use lets_embed.Account.Storage.{Storage, balance_of}
use lets_embed.Account.Status.{plan_active, status_resp}
use lets_embed.Account.Charge.{Usage, rolled, source_of}
use lets_embed.Account.Charge.Spend.{price}
use lets_embed.Account.Quota.{WithinQuota, IsMetered}
use lets_embed.Account.Quota.Life.{rolled_within}

-- With views left for a cost, a charge of that cost draws from the window.
basic_views :
    (kind : ChargeKind) (views searches funds : ℤ) (left : ℕ)
    → WithinQuota (some basic) views searches
    → kind ≢ search
    → views_remaining (some basic) true views ≡ some (pos left)
    → price kind ≤ left
    → decide_charge (some basic) true kind views searches funds (view_cost kind) ≡ window
unfolding views_remaining decide_charge view_cost
basic_views search views searches funds left w k r h = absurd (k refl)
basic_views image (pos v) searches funds left w k r h =
    ground (arith, add_i64-pos v 1, sub_i64-pos 2000 v)
basic_views video (pos v) searches funds left w k r h =
    ground (arith, add_i64-pos v 5, sub_i64-pos 2000 v)
basic_views embed_search (pos v) searches funds left w k r h =
    ground (arith, add_i64-pos v 10, sub_i64-pos 2000 v)
basic_views _ (negsuc v) searches funds left w k r h = absurd (omega arith)

none_views : (views : ℤ) {r : ℤ} → ¬ (views_remaining none true views ≡ some r)
unfolding views_remaining
none_views views e = cc

pro_views : (views : ℤ) {r : ℤ} → ¬ (views_remaining (some pro) true views ≡ some r)
unfolding views_remaining
pro_views views e = cc

views_left :
    (o : Option Str) (kind : ChargeKind) (views searches funds : ℤ) (left : ℕ)
    → WithinQuota (and_then o plan) views searches
    → kind ≢ search
    → views_remaining (and_then o plan) true views ≡ some (pos left)
    → price kind ≤ left
    → decide_charge (and_then o plan) true kind views searches funds (view_cost kind) ≡ window
views_left none kind views searches funds left = λ w k r h. absurd (none_views views r)
views_left (some id) kind views searches funds left = elim (plan-cases id) [
  | inl e ↦ rw e (λ w k r h. absurd (none_views views r))
  | inr (inl e) ↦ rw e (basic_views kind views searches funds left)
  | inr (inr e) ↦ rw e (λ w k r h. absurd (pro_views views r))
]

-- The same of searches.
basic_searches :
    (views searches funds : ℤ) (left : ℕ)
    → WithinQuota (some basic) views searches
    → searches_remaining (some basic) true searches ≡ some (pos left)
    → 1 ≤ left
    → decide_charge (some basic) true search views searches funds (view_cost search) ≡ window
unfolding searches_remaining decide_charge
basic_searches views (pos q) funds left w r h = ground (arith, sub_i64-pos 10 q)
basic_searches views (negsuc q) funds left w r h = absurd (omega arith)

pro_searches :
    (views searches funds : ℤ) (left : ℕ)
    → WithinQuota (some pro) views searches
    → searches_remaining (some pro) true searches ≡ some (pos left)
    → 1 ≤ left
    → decide_charge (some pro) true search views searches funds (view_cost search) ≡ window
unfolding searches_remaining decide_charge
pro_searches views (pos q) funds left w r h = ground (arith, sub_i64-pos 50 q)
pro_searches views (negsuc q) funds left w r h = absurd (omega arith)

none_searches : (searches : ℤ) {r : ℤ} → ¬ (searches_remaining none true searches ≡ some r)
unfolding searches_remaining
none_searches searches e = cc

searches_left :
    (o : Option Str) (views searches funds : ℤ) (left : ℕ)
    → WithinQuota (and_then o plan) views searches
    → searches_remaining (and_then o plan) true searches ≡ some (pos left)
    → 1 ≤ left
    → decide_charge (and_then o plan) true search views searches funds (view_cost search) ≡ window
searches_left none views searches funds left = λ w r h. absurd (none_searches searches r)
searches_left (some id) views searches funds left = elim (plan-cases id) [
  | inl e ↦ rw e (λ w r h. absurd (none_searches searches r))
  | inr (inl e) ↦ rw e (basic_searches views searches funds left)
  | inr (inr e) ↦ rw e (pro_searches views searches funds left)
]

-- The report and the charge read the same counters.
module _ (now : ℕ) (s : Storage) where
  abbrev current : Usage
  current = rolled true now s

  reported_counters :
      plan_active s now ≡ true
      → let report = status_resp now s in
        (report.views_remaining ≡ views_remaining (and_then s.plan plan) true current.win_views)
        × (report.searches_remaining
            ≡ searches_remaining (and_then s.plan plan) true current.win_search)
  unfolding status_resp rolled
  reported_counters active = elim (Bool-cases (should_roll s.win_start now)) [
    | inl e ↦ rw (active, e) (refl, refl)
    | inr e ↦ rw (active, e) (refl, refl)
  ]

  report_idle :
      plan_active s now ≡ false
      → ((status_resp now s).views_remaining ≡ none)
        × ((status_resp now s).searches_remaining ≡ none)
  unfolding status_resp views_remaining searches_remaining
  report_idle idle = rw idle (refl, refl)

-- What a charge of a kind needs of a status report to be covered by the plan.
abbrev pub IsCovered : ChargeKind → StatusResp → Type 0
IsCovered search r = (left : ℕ) × (r.searches_remaining ≡ some (pos left)) × (1 ≤ left)
IsCovered kind r = (left : ℕ) × (r.views_remaining ≡ some (pos left)) × (price kind ≤ left)

module _ (now : ℕ) (req : ChargeReq) (s : Storage) (metered : IsMetered s) where
  idle_uncovered :
      (kind : ChargeKind) → plan_active s now ≡ false → ¬ (IsCovered kind (status_resp now s))
  idle_uncovered search idle (left, r, h) = cc ((report_idle now s idle).1)
  idle_uncovered _ idle (left, r, h) = cc ((report_idle now s idle).0)

  covered_window :
      (kind : ChargeKind)
      → plan_active s now ≡ true
      → IsCovered kind (status_resp now s)
      → (funds : ℤ)
      → decide_charge
          (and_then s.plan plan)
          true
          kind
          (current now s).win_views
          (current now s).win_search
          funds
          (view_cost kind)
        ≡ window
  covered_window search active (left, r, h) funds =
      searches_left s.plan (current now s).win_views (current now s).win_search funds left
        (rolled_within true now s metered) (sym (reported_counters now s active).1 ∙ r) h
  covered_window kind active (left, r, h) funds =
      views_left s.plan kind (current now s).win_views (current now s).win_search funds left
        (rolled_within true now s metered) (λ e. cc) (sym (reported_counters now s active).0 ∙ r) h

  -- On an account whose counters are within its quotas, quota that the status reports as left for
  -- a kind covers a charge of that kind at that time: it is drawn from the window.
  pub reported_quota_usable : IsCovered req.kind (status_resp now s) → source_of now req s ≡ window
  unfolding source_of
  reported_quota_usable covered = elim (Bool-cases (plan_active s now)) [
    | inl active ↦ rw active (covered_window req.kind active covered (balance_of s))
    | inr idle ↦ absurd (idle_uncovered req.kind idle covered)
  ]
