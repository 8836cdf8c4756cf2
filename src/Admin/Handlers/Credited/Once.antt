-- ===== src/Admin/Handlers/Credited/Once.antt =====
-- The account after a credit form of user_worker/src/admin.rs that is sent again and again.
use lets_embed.Prelude.{◌≡◌, ◌⊎◌, inl, inr, Bool, true, none, List, subst}
use lets_embed.Prelude.Int.{◌+ℤ◌}
use lets_embed.Prelude.Words.{InI64}
use lets_embed.Prelude.Text.{Str, str_key}
use lets_embed.Account.Wire.{CreditReq}
use lets_embed.Account.Storage.{Storage, balance_of}
use lets_embed.Account.Credit.Exact.{with_points, credit-eq-with_points}
use lets_embed.GatewayWorker.Metering.{Accounts, put_account}
use lets_embed.Admin.Handlers.{Env, World, CreditForm}
use lets_embed.Admin.Handlers.Credited.{has_token, form_request, submit, submit-IsCredit}

-- The accounts are as before, or with the points of the request added once at the address, and so
-- they are if the request is `done`.
pub record IsOnce (addr : Str) (req : CreditReq) (accounts accounts' : Accounts) (done : Bool)
    : Type 0 where
  pub change :
      (accounts' ≡ accounts)
      ⊎ (accounts' ≡ put_account addr (with_points req (accounts addr)) accounts)
  pub told : done ≡ true → accounts' ≡ put_account addr (with_points req (accounts addr)) accounts

-- If the account has not seen the key of a credit form with a token, and its balance with the
-- points of the form fits into i64, the form, sent any number of times, whatever fails at each,
-- leaves all accounts as they were or the points added once (to no less than 0) and the key
-- marked, and so they are added if any answer was a redirect.
pub submit-IsOnce :
    (form : CreditForm) (envs : List Env) (w : World)
    → has_token form ≡ true
    → (w.accounts form.address).credit (form_request form).key ≡ none
    → InI64 (balance_of (w.accounts form.address) +ℤ form.points)
    → let (done, w') = submit envs form w in
      IsOnce form.address (form_request form) w.accounts w'.accounts done
submit-IsOnce form envs w token fresh fits =
    let same = credit-eq-with_points (form_request form) (w.accounts form.address) fresh fits in
    let Same : Storage → Type 0 =
      λ s. (submit envs form w).1.accounts ≡ put_account form.address s w.accounts in
    let h = submit-IsCredit form token envs w in
    record {
      change = elim h.change [ inl e ↦ inl e | inr e ↦ inr (subst Same same e) ];
      told = λ k. subst Same same (h.told k);
    }
