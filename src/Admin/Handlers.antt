-- ===== src/Admin/Handlers.antt =====
-- The handlers of user_worker/src/admin.rs, with the statements that they make on `users`. The
-- answer and what it leaves behind are those of one request.
pub mod Gated
pub mod Credited
pub mod Banned
pub mod Suspended
use lets_embed.Prelude.{
  ℕ, Bool, true, false, not, Option, none, some, List, [], ◌∷◌, ◌++◌, take, unwrap_or, and_then,
  ltb, ◌||◌, ◌&&◌, ◌==◌, if◌then◌else◌,
}
use lets_embed.Prelude.Int.{ℤ, pos}
use lets_embed.Prelude.Text.{Str, codes, trim, lower, to_lowercase}
use lets_embed.Session.{is_valid_principal}
use lets_embed.Account.Wire.{StatusResp, BalanceResp, CreditReq, BanReq, Reply}
use lets_embed.Account.Object.{on_ban}
use lets_embed.Login.Users.{UserRow, Users, is_known, set_banned}
use lets_embed.GatewayWorker.Metering.{Accounts, status_of}
use lets_embed.DoClient
use lets_embed.DoClient.{Trip, call_do}
use lets_embed.Admin.Access.{Gate, require_approver}
use lets_embed.Admin.Page.{render_admin}

pub record CreditForm : Type 0 where
  pub address : Str
  pub points : ℤ
  pub reason : Str
  pub token : Str

pub record BanForm : Type 0 where
  pub address : Str
  pub banned : ℤ

pub record AdminQuery : Type 0 where
  pub q : Option Str
  pub address : Option Str

pub data Answer : Type 0 where
  failed : ℕ → Str → Answer
  redirect : Str → Answer
  html : Str → Answer

-- `forbidden` and `internal_error`.
abbrev pub forbidden : Answer
forbidden = failed 403 (codes "Access not configured")

abbrev pub internal_error : Answer
internal_error = failed 500 (codes "internal error")

-- The settings and libraries of the worker, and what a request meets: its token, the clock, the
-- statements that succeed, the fate of its call, and the uuid that it draws.
pub record Env : Type 0 where
  pub gate : Gate
  pub decode58 : Str → Option (List ℕ)
  pub date_text : ℕ → Str
  pub token : Option Str
  pub now : ℕ
  pub read_ok : Bool
  pub write_ok : Bool
  pub trip : Trip
  pub uuid : Str

pub record World : Type 0 where
  -- The text of the key set in the key-value store.
  pub kv : Option Str
  pub users : Users
  pub accounts : Accounts

-- `x LIKE p` of SQLite: `%` stands for any text, `_` for one character, and ASCII letters match in
-- both cases.
any_suffix : (Str → Bool) → Str → Bool
any_suffix f [] = f []
any_suffix f (c ∷ s) = f (c ∷ s) || any_suffix f s

like_one : ℕ → (Str → Bool) → Str → Bool
like_one p f [] = false
like_one p f (c ∷ s) = (p == b'_' || lower p == lower c) && f s

unfoldable pub is_like : Str → Str → Bool
unfolding any_suffix like_one
is_like [] [] = true
is_like [] (c ∷ s) = false
is_like (p ∷ ps) s = if p == b'%' then any_suffix (is_like ps) s else like_one p (is_like ps) s

-- `ORDER BY last_login DESC`.
unfoldable pub insert_row : UserRow → Users → Users
insert_row r [] = r ∷ []
insert_row r (x ∷ xs) =
    let rest = insert_row r xs in if ltb r.last_login x.last_login then x ∷ rest else r ∷ x ∷ xs

unfoldable pub by_last_login : Users → Users
by_last_login [] = []
by_last_login (r ∷ us) = insert_row r (by_last_login us)

unfoldable pub matching : Option Str → Users → Users
matching none us = us
matching (some q) [] = []
matching (some q) (r ∷ us) =
    let rest = matching (some q) us in if is_like (q ++ codes "%") r.address then r ∷ rest else rest

-- `db_list_users`.
unfoldable pub db_list_users : Option Str → Users → Users
db_list_users q us = take 200 (by_last_login (matching q us))

abbrev nonempty : Str → Option Str
nonempty [] = none
nonempty (c ∷ s) = some (c ∷ s)

-- The filter that `admin_page` makes of `q`.
unfoldable pub filter_of : Option Str → Option Str
filter_of q = and_then q (λ s. nonempty (to_lowercase (trim s)))

-- Whether the object has answered with the status 200, and the flag that a form asks for.
abbrev pub is_ok : Option Reply → Bool
is_ok r = elim (and_then r status_of) [ none ↦ false | some status ↦ status == 200 ]

abbrev pub flag_of : BanForm → Bool
flag_of form = elim form.banned [ pos n ↦ not (n == 0) | _ ↦ true ]

module _ (env : Env) where
  -- `validate_form_address`: what it answers, if the address is refused.
  unfoldable pub validate_form_address : Str → Users → Option Answer
  validate_form_address address us =
      if not (is_valid_principal env.decode58 address)
      then some (failed 400 (codes "invalid address"))
      else if not env.read_ok
      then some internal_error
      else if is_known address us
      then none
      else some (failed 404 (codes "unknown user"))

  -- What follows the check of the address.
  abbrev pub unless_refused : Option Answer → World → Answer × World → Answer × World
  unless_refused (some a) w r = (a, w)
  unless_refused none w r = r

  abbrev pub user_page : Str → Answer
  user_page address = redirect (codes "/user/admin?address=" ++ address)

  -- `admin_page` for an approver.
  abbrev shown : Str → AdminQuery → World → Option StatusResp → Answer
  shown email q w detail =
      let filter = filter_of q.q in
      html (
        render_admin env.date_text env.uuid email (unwrap_or filter [])
          (db_list_users filter w.users) detail)

  abbrev pub with_detail : Str → AdminQuery → World → Option StatusResp × Accounts → Answer × World
  with_detail email q w (none, accounts) = (internal_error, record w { accounts = accounts })
  with_detail email q w (some s, accounts) =
      (shown email q w (some s), record w { accounts = accounts })

  abbrev pub detail_address : Option Str → Option Str
  detail_address o = and_then o (λ a. if is_valid_principal env.decode58 a then some a else none)

  unfoldable pub show_page : Str → AdminQuery → World → Answer × World
  show_page email q w =
      if not env.read_ok then (internal_error, w) else elim (detail_address q.address) [
        | none ↦ (shown email q w none, w)
        | some addr ↦ with_detail email q w (DoClient.do_status env.trip addr w.accounts)
      ]

  -- The key of a credit: the token of the form, or a fresh one if that is blank.
  unfoldable pub credit_key : CreditForm → Str
  credit_key form = codes "admin:" ++ elim (trim form.token) [ [] ↦ env.uuid | _ ∷ _ ↦ form.token ]

  abbrev pub credit_request : CreditForm → CreditReq
  credit_request form = record { points = form.points; key = credit_key form; reason = form.reason }

  abbrev pub credited : Str → World → Option BalanceResp × Accounts → Answer × World
  credited address w (none, accounts) = (internal_error, record w { accounts = accounts })
  credited address w (some r, accounts) = (user_page address, record w { accounts = accounts })

  -- `credit` for an approver.
  unfoldable pub give_credit : CreditForm → World → Answer × World
  give_credit form w = unless_refused (validate_form_address form.address w.users) w (
      credited form.address w
        (DoClient.do_credit env.trip form.address (credit_request form) w.accounts))

  -- The end of a ban, from whether the object has answered with 200 and the mirror was written.
  unfoldable pub ban_end : Bool → Bool → BanForm → World → Answer × World
  ban_end false write_ok form w = (internal_error, w)
  ban_end true false form w = (internal_error, w)
  ban_end true true form w = (
    user_page form.address,
    record w { users = set_banned (if flag_of form then 1 else 0) form.address w.users },
  )

  abbrev pub mirrored : BanForm → World → Option Reply × Accounts → Answer × World
  mirrored form w (r, accounts) =
      ban_end (is_ok r) env.write_ok form (record w { accounts = accounts })

  -- `ban` for an approver.
  unfoldable pub set_ban : BanForm → World → Answer × World
  set_ban form w = unless_refused (validate_form_address form.address w.users) w (
      mirrored form w
        (call_do env.trip form.address (on_ban (record { banned = flag_of form })) w.accounts))

  -- The gate in front of each handler.
  abbrev pub behind_gate :
      (Str → World → Answer × World) → World → Option Str × Option Str → Answer × World
  behind_gate handler w (none, kv) = (forbidden, record w { kv = kv })
  behind_gate handler w (some email, kv) = handler email (record w { kv = kv })

  abbrev gated : (Str → World → Answer × World) → World → Answer × World
  gated handler w = behind_gate handler w (require_approver env.gate env.now env.token w.kv)

  unfoldable pub admin_page : AdminQuery → World → Answer × World
  admin_page q = gated (λ email. show_page email q)

  unfoldable pub credit : CreditForm → World → Answer × World
  credit form = gated (λ email. give_credit form)

  unfoldable pub ban : BanForm → World → Answer × World
  ban form = gated (λ email. set_ban form)

-- The routes of the administration.
pub data Request : Type 0 where
  to_page : AdminQuery → Request
  to_credit : CreditForm → Request
  to_ban : BanForm → Request

unfoldable pub serve : Env → Request → World → Answer × World
serve env (to_page q) = admin_page env q
serve env (to_credit form) = credit env form
serve env (to_ban form) = ban env form
