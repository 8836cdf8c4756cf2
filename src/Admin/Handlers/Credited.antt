-- ===== src/Admin/Handlers/Credited.antt =====
-- A credit form of user_worker/src/admin.rs that is sent again and again: what it does by the handler
-- of the account object.
pub mod Once
use mathlib.Core.Path.{fun_ext}
use lets_embed.Prelude.{
  ◌≡◌, refl, ap, ◌∙◌, ◌⊎◌, inl, inr, Bool, true, false, ◌||◌, Option, none, some, List, [], ◌∷◌,
  arith, Bool-cases, Option-cases, is_some, subst, ◌++◌,
}
use lets_embed.Prelude.Text.{Str, codes, trim, str_eq, str_eq_refl}
use lets_embed.Account.Wire.{CreditReq, BalanceResp}
use lets_embed.Account.Storage.{Storage}
use lets_embed.Account.Credit
use lets_embed.Account.Object.{handle}
use lets_embed.GatewayWorker.Metering.{
  Call, answered, lost_before, lost_after, Accounts, put_account,
}
use lets_embed.DoClient.{Trip, delivered, call_do, do_credit, balance_body}
use lets_embed.Admin.Access.{require_approver}
use lets_embed.Admin.Handlers.{
  Env, World, Answer, redirect, CreditForm, validate_form_address, credit_key, credit_request,
  credited, unless_refused, give_credit, behind_gate, credit,
}

-- The account after the object has handled the credit.
abbrev pub handled : CreditReq → Storage → Storage
handled req s = (Credit.credit req s).1

handled_idempotent : (req : CreditReq) (s : Storage) → handled req (handled req s) ≡ handled req s
unfolding Credit.credit
handled_idempotent req s = elim (Option-cases (s.credit req.key)) [
  | inl e ↦ rw (handled, Credit.credit, e, str_eq_refl req.key) refl
  | inr (b, e) ↦ rw (handled, Credit.credit, e) (rw e refl)
]

abbrev pub is_redirect : Answer → Bool
is_redirect (redirect to) = true
is_redirect _ = false

-- What one submission makes of the accounts: nothing, or the credit, which a redirect tells of.
pub record IsCredit (addr : Str) (req : CreditReq) (accounts accounts' : Accounts) (done : Bool)
    : Type 0 where
  pub change :
      (accounts' ≡ accounts) ⊎ (accounts' ≡ put_account addr (handled req (accounts addr)) accounts)
  pub told : done ≡ true → accounts' ≡ put_account addr (handled req (accounts addr)) accounts

delivered-IsCredit :
    (call : Call) (addr : Str) (req : CreditReq) (accounts : Accounts)
    → let r = delivered call addr (Credit.credit req (accounts addr)) accounts in
      IsCredit addr req accounts r.1 (is_some (balance_body r.0))
unfolding delivered
delivered-IsCredit answered addr req accounts = record { change = inr refl; told = λ h. refl }
delivered-IsCredit lost_before addr req accounts = record {
  change = inl refl;
  told = λ h. absurd (ground arith);
}
delivered-IsCredit lost_after addr req accounts = record {
  change = inr refl;
  told = λ h. absurd (ground arith);
}

do_credit-IsCredit :
    (trip : Trip) (addr : Str) (req : CreditReq) (accounts : Accounts)
    → let r = do_credit trip addr req accounts in IsCredit addr req accounts r.1 (is_some r.0)
unfolding do_credit call_do handle
do_credit-IsCredit trip addr req accounts = delivered-IsCredit trip.call addr req accounts

credited-IsCredit :
    (env : Env) (addr : Str) (req : CreditReq) (w : World) (r : Option BalanceResp × Accounts)
    → IsCredit addr req w.accounts r.1 (is_some r.0)
    → let r' = credited env addr w r in
      IsCredit addr req w.accounts r'.1.accounts (is_redirect r'.0)
credited-IsCredit env addr req w (none, accounts) h = record {
  change = h.change;
  told = λ k. absurd (ground arith);
}
credited-IsCredit env addr req w (some b, accounts) h = record {
  change = h.change;
  told = λ k. h.told refl;
}

-- An answer that is made without the object.
refused-IsCredit :
    (addr : Str) (req : CreditReq) (w : World) (a : Answer)
    → is_redirect a ≡ false
    → IsCredit addr req w.accounts w.accounts (is_redirect a)
refused-IsCredit addr req w a h = record { change = inl refl; told = λ k. absurd (ground arith) }

module _ (env : Env) where
  pub refusal_not_redirect :
      (address : Str) (w : World) (a : Answer)
      → validate_form_address env address w.users ≡ some a
      → is_redirect a ≡ false
  unfolding validate_form_address
  refusal_not_redirect address w a h = ground arith

  unless_refused-IsCredit :
      (form : CreditForm) (w : World) (refusal : Option Answer) (r : Answer × World)
      → let req = credit_request env form in
        ((a : Answer) → refusal ≡ some a → is_redirect a ≡ false)
        → IsCredit form.address req w.accounts r.1.accounts (is_redirect r.0)
        → let r' = unless_refused env refusal w r in
          IsCredit form.address req w.accounts r'.1.accounts (is_redirect r'.0)
  unless_refused-IsCredit form w none r plain h = h
  unless_refused-IsCredit form w (some a) r plain h =
      refused-IsCredit form.address (credit_request env form) w a (plain a refl)

  give_credit-IsCredit :
      (form : CreditForm) (w : World)
      → let r = give_credit env form w in
        IsCredit form.address (credit_request env form) w.accounts r.1.accounts (is_redirect r.0)
  unfolding give_credit
  give_credit-IsCredit form w =
      let req = credit_request env form in
      let reply = do_credit env.trip form.address req w.accounts in
      unless_refused-IsCredit form w (validate_form_address env form.address w.users)
        (credited env form.address w reply) (refusal_not_redirect form.address w)
        (credited-IsCredit env form.address req w reply
          (do_credit-IsCredit env.trip form.address req w.accounts))

  behind_gate-IsCredit :
      (form : CreditForm) (w : World) (o : Option Str × Option Str)
      → let r = behind_gate env (λ email. give_credit env form) w o in
        IsCredit form.address (credit_request env form) w.accounts r.1.accounts (is_redirect r.0)
  behind_gate-IsCredit form w (none, kv) = record {
    change = inl refl;
    told = λ k. absurd (ground arith);
  }
  behind_gate-IsCredit form w (some email, kv) = give_credit-IsCredit form (record w { kv = kv })

  pub credit-IsCredit :
      (form : CreditForm) (w : World)
      → let r = credit env form w in
        IsCredit form.address (credit_request env form) w.accounts r.1.accounts (is_redirect r.0)
  unfolding credit
  credit-IsCredit form w =
      behind_gate-IsCredit form w (require_approver env.gate env.now env.token w.kv)

-- The world after a form has been sent again and again, and whether any answer was a redirect.
unfoldable pub submit : List Env → CreditForm → World → Bool × World
submit [] form w = (false, w)
submit (env ∷ envs) form w =
    let (a, w1) = credit env form w in
    let (done, w2) = submit envs form w1 in (is_redirect a || done, w2)

module _ (addr : Str) (req : CreditReq) where
  -- The accounts after the credit, and a second one changes nothing.
  abbrev with_credit : Accounts → Accounts
  with_credit w = put_account addr (handled req (w addr)) w

  twice : (w : Accounts) → with_credit (with_credit w) ≡ with_credit w
  twice w = fun_ext (λ b. twice_at b (Bool-cases (str_eq addr b)))
    where
      twice_at :
          (b : Str)
          → (str_eq addr b ≡ true) ⊎ (str_eq addr b ≡ false)
          → with_credit (with_credit w) b ≡ with_credit w b
      twice_at b (inl e) = rw (e, str_eq_refl addr) (handled_idempotent req (w addr))
      twice_at b (inr e) = rw e refl

  abbrev Either : Accounts → Accounts → Type 0
  Either v w = (w ≡ v) ⊎ (w ≡ with_credit v)

  stays_once : (u v w : Accounts) → v ≡ with_credit u → Either v w → w ≡ with_credit u
  stays_once u v w h (inl k) = k ∙ h
  stays_once u v w h (inr k) = k ∙ (ap with_credit h ∙ twice u)

  then_once : (u v w : Accounts) → Either u v → w ≡ with_credit v → w ≡ with_credit u
  then_once u v w (inl h) k = k ∙ ap with_credit h
  then_once u v w (inr h) k = k ∙ (ap with_credit h ∙ twice u)

  Either-trans : (u v w : Accounts) → Either u v → Either v w → Either u w
  Either-trans u v w h (inl k) = elim h [ inl h' ↦ inl (k ∙ h') | inr h' ↦ inr (k ∙ h') ]
  Either-trans u v w h (inr k) = inr (then_once u v w h k)

  IsCredit-trans :
      (u v w : Accounts) (d e : Bool)
      → IsCredit addr req u v d
      → IsCredit addr req v w e
      → IsCredit addr req u w (d || e)
  IsCredit-trans u v w true e h k = record {
    change = Either-trans u v w h.change k.change;
    told = λ t. stays_once u v w (h.told refl) k.change;
  }
  IsCredit-trans u v w false e h k = record {
    change = Either-trans u v w h.change k.change;
    told = λ t. then_once u v w h.change (k.told t);
  }

-- The token of a form that is not blank makes the key.
abbrev pub form_request : CreditForm → CreditReq
form_request form = record {
  points = form.points;
  key = codes "admin:" ++ form.token;
  reason = form.reason;
}

abbrev pub has_token : CreditForm → Bool
has_token form = elim (trim form.token) [ [] ↦ false | _ ∷ _ ↦ true ]

credit_request-eq :
    (env : Env) (form : CreditForm)
    → has_token form ≡ true
    → credit_request env form ≡ form_request form
unfolding credit_key
credit_request-eq env form h = ground (arith, h)

-- The same for the whole sequence of submissions.
pub submit-IsCredit :
    (form : CreditForm)
    → has_token form ≡ true
    → (envs : List Env) (w : World)
    → let (done, w') = submit envs form w in
      IsCredit form.address (form_request form) w.accounts w'.accounts done
unfolding submit
submit-IsCredit form h [] w = record { change = inl refl; told = λ k. absurd (ground arith) }
submit-IsCredit form h (env ∷ envs) w =
    let w1 = (credit env form w).1 in
    let (done, w2) = submit envs form w1 in
    IsCredit-trans form.address (form_request form) w.accounts w1.accounts w2.accounts
      (is_redirect (credit env form w).0) done
      (subst
        (λ req.
          IsCredit form.address req w.accounts w1.accounts (is_redirect (credit env form w).0))
        (credit_request-eq env form h) (credit-IsCredit env form w))
      (submit-IsCredit form h envs w1)
