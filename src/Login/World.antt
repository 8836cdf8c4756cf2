-- ===== src/Login/World.antt =====
-- What the login handlers of user_worker/src/auth.rs and user_worker/src/solana_link.rs work on, the
-- single use of a nonce, and the end of both logins. Texts are lists of bytes. The making of a
-- binding and of a statement is one step with its call, since either failure has the same answer.
use lets_embed.Prelude.{ℕ, ◌+◌, Bool, true, false, not, Option, none, some, List, if◌then◌else◌}
use lets_embed.Prelude.Text.{Str, codes, str_eq, str_key}
use lets_embed.Config.{session_ttl_secs}
use lets_embed.Session.{Codec, SessionClaims, jwt_sign}
use lets_embed.Siwe.Address.{Crypto}
use lets_embed.Account.Storage.{Storage}
use lets_embed.Account.Object.{init}
use lets_embed.Login.Users.{Users, upsert, is_banned}

-- `VerifyReq`, and `SiwsReq`, which has the fields of `LinkSolReq`.
pub record VerifyReq : Type 0 where
  pub message : Str
  pub signature : Str

pub record WalletReq : Type 0 where
  pub solana_address : Str
  pub signature : Str
  pub nonce : Str

-- The settings of the worker and the library functions it uses.
pub record Env {ℓ} (Signature : Type ℓ) : Type ℓ where
  pub lib : Codec
  pub crypto : Crypto Signature
  pub decode58 : Str → Option (List ℕ)
  pub valid_key : Str → Bool
  pub verify_strict : Str → Str → Str → Bool
  pub jwt_secret : Str
  pub siwe_domain : Str
  pub chain_id : ℕ

-- What a request meets: the clock, and which calls outside succeed.
pub data Call : Type 0 where
  answered lost_before lost_after : Call

pub record Trip : Type 0 where
  pub now : ℕ
  pub later : ℕ
  pub nonce_get_ok : Bool
  pub nonce_delete_ok : Bool
  pub lookup_ok : Bool
  pub owner_ok : Bool
  pub write_ok : Bool
  -- Whether a write that fails reports a constraint.
  pub constraint : Bool
  pub ban_ok : Bool
  pub init_call : Call

pub record World : Type 0 where
  -- The nonces in store, of those that have not run out.
  pub nonces : Str → Bool
  pub users : Users
  pub accounts : Str → Storage

pub data Reply : Type 0 where
  failed : ℕ → Str → Reply
  -- The session token, and the address shown.
  session : Str → Str → Reply
  linked_to : Str → Reply
  done : Reply

abbrev pub internal_error : Reply
internal_error = failed 500 (codes "internal error")

-- A step that may answer, and what follows it otherwise.
abbrev pub unless : Option Reply × World → (World → Reply × World) → Reply × World
unless (some r, w) next = (r, w)
unless (none, w) next = next w

abbrev pub put_nonce : Str → Bool → (Str → Bool) → Str → Bool
put_nonce nonce b nonces n = if str_eq nonce n then b else nonces n

-- The single use of a nonce, with the status for an unknown one.
unfoldable pub take_nonce : Trip → ℕ → Str → World → Option Reply × World
take_nonce trip status nonce w =
    if not trip.nonce_get_ok
    then (some internal_error, w)
    else if not (w.nonces nonce)
    then (some (failed status (codes "unknown or expired nonce")), w)
    else if not trip.nonce_delete_ok
    then (some internal_error, w)
    else (none, record w { nonces = put_nonce nonce false w.nonces })

abbrev pub put_account : Str → Storage → (Str → Storage) → Str → Storage
put_account a s accounts b = if str_eq a b then s else accounts b

-- What becomes of the call of the account object.
unfoldable pub after_init : Call → Reply → World → World → Reply × World
after_init answered reply touched w = (reply, touched)
after_init lost_before reply touched w = (internal_error, w)
after_init lost_after reply touched w = (internal_error, touched)

module _ {ℓ} {Signature : Type ℓ} (env : Env Signature) where
  abbrev pub claims_for : ℕ → Str → SessionClaims
  claims_for now addr = record { sub = addr; iat = now; exp = now + session_ttl_secs }

  -- `do_init`, then the session cookie.
  unfoldable pub issued : Trip → Str → Str → World → Reply × World
  issued trip addr shown w =
      let touched = record w {
        accounts =
            put_account addr (init trip.later (record { address = addr }) (w.accounts addr)).1
              w.accounts;
      } in
      let token = jwt_sign env.lib (claims_for trip.now addr) env.jwt_secret in
      after_init trip.init_call (session token shown) touched w

  -- The user row, the ban flag, the account and the session: the end of both logins.
  unfoldable pub enter : Trip → Str → Str → World → Reply × World
  enter trip addr shown w =
      if not trip.write_ok
      then (internal_error, w)
      else (let w1 = record w { users = upsert addr trip.now w.users } in
          if not trip.ban_ok
          then (internal_error, w1)
          else if is_banned addr w1.users
          then (failed 403 (codes "account banned"), w1)
          else issued trip addr shown w1)

-- `nonce`, for the random text that it draws.
unfoldable pub nonce : Trip → Str → World → Reply × World
nonce trip drawn w =
    if trip.write_ok
    then (done, record w { nonces = put_nonce drawn true w.nonces })
    else (internal_error, w)
