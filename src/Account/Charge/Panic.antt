-- ===== src/Account/Charge/Panic.antt =====
-- The `expect` of `charge` in user_worker/src/account_do.rs: a dirty window always has a start.
use lets_embed.Prelude.{
  ℕ, ◌≡◌, ◌≢◌, refl, sym, ◌∙◌, Bool, true, false, Option, arith, is_some, unwrap_or, inl, inr,
  Bool-cases,
}
use lets_embed.Prelude.Int.{ℤ}
use lets_embed.Prelude.Text.{Str}
use lets_embed.Config.{Plan}
use lets_embed.Account.Wire.{
  ChargeKind, search, ChargeReq, ChargeResp, Reply, charge_reply, panicked,
}
use lets_embed.Account.Decide.{
  ChargeSource, window, balance, free_unlimited, refuse, should_roll, decide_charge, view_cost,
}
use lets_embed.Account.Storage.{Storage, balance_of}
use lets_embed.Account.Status.{ensure_init, plan_active}
use lets_embed.Account.Charge.{
  Usage, is_repeat, repeat_reply, rolled, drawn, recorded, settled, source_of, charge_new,
  charge_open, charge,
}

-- A dirty window has a start.
abbrev HasStart : Usage → Type 0
HasStart u = u.window_dirty ≡ true → is_some u.win_start ≡ true

rolled-HasStart : (active : Bool) (now : ℕ) (s : Storage) → HasStart (rolled active now s)
unfolding rolled
rolled-HasStart active now s h = ground arith

rolled_active : (now : ℕ) (s : Storage) → is_some (rolled true now s).win_start ≡ true
unfolding rolled should_roll
rolled_active now s = ground arith

recorded_reply :
    (now : ℕ) (path : Str) (u : Usage) (funds : ℤ) (s : Storage) (reply : Reply)
    → HasStart u
    → (recorded now path u funds s reply).0 ≡ reply
unfolding recorded
recorded_reply now path u funds s reply h = ground arith

-- Only an active plan has a window to draw from.
pub decide_charge_window :
    (plan : Option Plan) (active : Bool) (kind : ChargeKind) (views searches funds cost : ℤ)
    → decide_charge plan active kind views searches funds cost ≡ window
    → active ≡ true
unfolding decide_charge
decide_charge_window plan active kind views searches funds cost h = ground arith

drawn-HasStart :
    (source : ChargeSource) (kind : ChargeKind) (cost : ℤ) (u : Usage) (funds : ℤ)
    → (source ≡ window → is_some u.win_start ≡ true)
    → HasStart u
    → HasStart (drawn source kind cost u funds).0
unfolding drawn
drawn-HasStart window search cost u funds h k e = h refl
drawn-HasStart window _ cost u funds h k e = h refl
drawn-HasStart balance kind cost u funds h k e = k e
drawn-HasStart free_unlimited kind cost u funds h k e = k e
drawn-HasStart refuse kind cost u funds h k e = k e

window_start :
    (now : ℕ) (s : Storage) (active : Bool)
    → active ≡ true
    → is_some (rolled active now s).win_start ≡ true
window_start now s true h = rolled_active now s
window_start now s false h = cc

charge_reply-ne-panicked : (r : ChargeResp) (status : ℕ) → charge_reply r status ≢ panicked
charge_reply-ne-panicked r status e = cc

settled-ne-panicked :
    (source : ChargeSource) (now : ℕ) (req : ChargeReq) (s : Storage)
    → (source ≡ window → plan_active s now ≡ true)
    → (settled source now req s).0 ≢ panicked
unfolding settled
settled-ne-panicked refuse now req s h e = cc
settled-ne-panicked source now req s h e =
    let active = plan_active s now in
    let u = rolled active now s in
    let cost = view_cost req.kind in
    let started =
      drawn-HasStart source req.kind cost u (balance_of s) (λ w. window_start now s active (h w))
        (rolled-HasStart active now s) in
    charge_reply-ne-panicked _ _ (sym (recorded_reply now req.path _ _ s _ started) ∙ e)

charge_open-ne-panicked :
    (now : ℕ) (req : ChargeReq) (s : Storage) → (charge_open now req s).0 ≢ panicked
unfolding charge_open charge_new repeat_reply
charge_open-ne-panicked now req s = elim (Bool-cases (is_repeat now req.path s)) [
  | inl e ↦ rw e (λ p. cc)
  | inr e ↦ rw e (
      settled-ne-panicked (source_of now req s) now req s
        (unfold source_of in decide_charge_window _ _ _ _ _ _ _))
]

-- Whatever is stored and requested, a charge does not panic at its `expect`: a window that is
-- written has a start.
pub charge-ne-panicked : (now : ℕ) (req : ChargeReq) (s : Storage) → (charge now req s).0 ≢ panicked
unfolding charge
charge-ne-panicked now req s = elim (Bool-cases (unwrap_or (ensure_init s).banned false)) [
  | inl e ↦ rw e (λ p. cc)
  | inr e ↦ rw e (charge_open-ne-panicked now req (ensure_init s))
]
