-- ===== src/Admin/Handlers/Banned.antt =====
-- What a ban that an administrator makes in user_worker/src/admin.rs does to the account and to its
-- mirror in `users`.
use lets_embed.Prelude.{
  ℕ, ◌≡◌, refl, Bool, true, false, Option, none, some, [], ◌∷◌, arith, Bool-cases, inl, inr,
  if◌then◌else◌,
}
use lets_embed.Prelude.Text.{Str, str_eq_refl}
use lets_embed.Account.Object.{on_ban, ban, handle}
use lets_embed.Login.Users.{Users, is_known, is_banned, has_address, set_banned}
use lets_embed.GatewayWorker.Metering.{Call, answered, lost_before, lost_after, Accounts}
use lets_embed.DoClient.{delivered, call_do}
use lets_embed.Admin.Access.{require_approver}
use lets_embed.Admin.Handlers.{
  Env, World, Answer, BanForm, validate_form_address, unless_refused, is_ok, flag_of, ban_end,
  mirrored, set_ban, behind_gate,
}
use lets_embed.Admin.Handlers
use lets_embed.Admin.Handlers.Credited.{is_redirect, refusal_not_redirect}

-- The mirror of a row that is there says what was written.
set_banned_lem :
    (b : Bool) (a : Str) (us : Users)
    → is_known a us ≡ true
    → is_banned a (set_banned (if b then 1 else 0) a us) ≡ b
unfolding set_banned
set_banned_lem b a [] h = absurd (ground arith)
set_banned_lem b a (row ∷ us) h = elim (Bool-cases (has_address a row)) [
  | inl e ↦ rw e (ground arith)
  | inr e ↦ ground (arith, e, set_banned_lem b a us (ground (arith, h, e)))
]

-- The account and its mirror after a ban: both follow the form, or the mirror is as before.
pub record FollowsBan (form : BanForm) (w : World) (r : Answer × World) : Type 0 where
  pub account : is_redirect r.0 ≡ true → (r.1.accounts form.address).banned ≡ some (flag_of form)
  pub mirror : is_redirect r.0 ≡ true → is_banned form.address r.1.users ≡ flag_of form
  pub otherwise : is_redirect r.0 ≡ false → r.1.users ≡ w.users

module _ (env : Env) (form : BanForm) where
  delivered_ban :
      (call : Call) (now later : ℕ) (w : Accounts)
      → let event = on_ban (record { banned = flag_of form }) in
        let r = delivered call form.address (handle now later event (w form.address)) w in
        is_ok r.0 ≡ true → (r.1 form.address).banned ≡ some (flag_of form)
  unfolding delivered handle ban
  delivered_ban answered now later w h = rw (str_eq_refl form.address) refl
  delivered_ban lost_before now later w h = absurd (ground arith)
  delivered_ban lost_after now later w h = absurd (ground arith)

  ban_end-FollowsBan :
      (ok write_ok : Bool) (w w0 : World)
      → w.users ≡ w0.users
      → is_known form.address w.users ≡ true
      → (ok ≡ true → (w.accounts form.address).banned ≡ some (flag_of form))
      → FollowsBan form w0 (ban_end env ok write_ok form w)
  unfolding ban_end
  ban_end-FollowsBan false write_ok w w0 same known set = record {
    account = λ h. absurd (ground arith);
    mirror = λ h. absurd (ground arith);
    otherwise = λ h. same;
  }
  ban_end-FollowsBan true false w w0 same known set = record {
    account = λ h. absurd (ground arith);
    mirror = λ h. absurd (ground arith);
    otherwise = λ h. same;
  }
  ban_end-FollowsBan true true w w0 same known set = record {
    account = λ h. set refl;
    mirror = λ h. set_banned_lem (flag_of form) form.address w.users known;
    otherwise = λ h. absurd (ground arith);
  }

  refused-FollowsBan :
      (w w0 : World) (a : Answer)
      → w.users ≡ w0.users
      → is_redirect a ≡ false
      → FollowsBan form w0 (a, w)
  refused-FollowsBan w w0 a same h = record {
    account = λ k. absurd (ground arith);
    mirror = λ k. absurd (ground arith);
    otherwise = λ k. same;
  }

  allowed_known :
      (w : World)
      → validate_form_address env form.address w.users ≡ none
      → is_known form.address w.users ≡ true
  unfolding validate_form_address
  allowed_known w h = ground (arith, h)

  unless_refused-FollowsBan :
      (w w0 : World) (refusal : Option Answer) (r : Answer × World)
      → w.users ≡ w0.users
      → ((a : Answer) → refusal ≡ some a → is_redirect a ≡ false)
      → (refusal ≡ none → FollowsBan form w0 r)
      → FollowsBan form w0 (unless_refused env refusal w r)
  unless_refused-FollowsBan w w0 none r same plain h = h refl
  unless_refused-FollowsBan w w0 (some a) r same plain h =
      refused-FollowsBan w w0 a same (plain a refl)

  set_ban-FollowsBan : (w w0 : World) → w.users ≡ w0.users → FollowsBan form w0 (set_ban env form w)
  unfolding set_ban call_do
  set_ban-FollowsBan w w0 same =
      let event = on_ban (record { banned = flag_of form }) in
      let r = call_do env.trip form.address event w.accounts in
      unless_refused-FollowsBan w w0 (validate_form_address env form.address w.users)
        (mirrored env form w r) same (refusal_not_redirect env form.address w)
        (λ h.
          ban_end-FollowsBan (is_ok r.0) env.write_ok (record w { accounts = r.1 }) w0 same
            (allowed_known w h)
            (delivered_ban env.trip.call env.trip.now env.trip.later w.accounts))

  behind_gate-FollowsBan :
      (w : World) (o : Option Str × Option Str)
      → FollowsBan form w (behind_gate env (λ email. set_ban env form) w o)
  behind_gate-FollowsBan w (none, kv) = refused-FollowsBan (record w { kv = kv }) w _ refl refl
  behind_gate-FollowsBan w (some email, kv) = set_ban-FollowsBan (record w { kv = kv }) w refl

  -- x
  pub ban-FollowsBan : (w : World) → FollowsBan form w (Handlers.ban env form w)
  unfolding Handlers.ban
  ban-FollowsBan w = behind_gate-FollowsBan w (require_approver env.gate env.now env.token w.kv)
