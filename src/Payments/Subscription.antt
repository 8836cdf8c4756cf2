-- ===== src/Payments/Subscription.antt =====
-- Changes of a subscription in user_worker/src/payments.rs: `subscribe` and `unsubscribe` pass them
-- through to the account object and mirror the plan in the column `users.plan`.
pub mod Mirrored
mod Tests
use lets_embed.Prelude.{
  Bool, true, false, ◌&&◌, ℕ, Option, none, some, List, [], ◌∷◌, ◌==◌, if◌then◌else◌,
}
use lets_embed.Prelude.Text.{Str, codes}
use lets_embed.Account.Wire.{
  SubscribeReq, Reply, charge_reply, balance_reply, status_reply, error_reply, empty_reply,
  panicked,
}
use lets_embed.Account.Object.{Event, on_subscribe, on_unsubscribe}
use lets_embed.GatewayWorker.Metering.{Accounts}
use lets_embed.DoClient.{Trip, call_do}
use lets_embed.Login.Users.{Users, set_plan}

-- The table of users and the account objects.
pub record World : Type 0 where
  pub users : Users
  pub accounts : Accounts

-- The answer of the object, relayed with its status and body, or an answer of the worker's own.
pub data Answer : Type 0 where
  relayed : Reply → Answer
  api_err : ℕ → Str → Answer

-- The status of an answer; a panic has none, since its call fails.
abbrev pub status_code : Reply → ℕ
status_code (charge_reply r status) = status
status_code (balance_reply r status) = status
status_code (status_reply r status) = status
status_code (error_reply msg status) = status
status_code empty_reply = 200
status_code panicked = 500

-- What follows the call; `update_ok` says whether the database carries out the update.
unfoldable pub relay : Bool → Str → Option Str → Users → Option Reply × Accounts → Answer × World
relay update_ok addr plan users (none, accounts) = (
  api_err 500 (codes "subscription update failed"),
  record { users = users; accounts = accounts },
)
relay update_ok addr plan users (some r, accounts) = (
  relayed r,
  record {
    users = if status_code r == 200 && update_ok then set_plan plan addr users else users;
    accounts = accounts;
  },
)

unfoldable pub plan_passthrough : Trip → Bool → Str → Event → Option Str → World → Answer × World
plan_passthrough trip update_ok addr event plan w =
    relay update_ok addr plan w.users (call_do trip addr event w.accounts)

-- `subscribe`, from the session's address.
unfoldable pub subscribe : Trip → Bool → Option Str → SubscribeReq → World → Answer × World
subscribe trip update_ok none req w = (api_err 401 (codes "login required"), w)
subscribe trip update_ok (some addr) req w =
    plan_passthrough trip update_ok addr (on_subscribe req) (some req.plan) w

-- `unsubscribe`, from the session's address.
unfoldable pub unsubscribe : Trip → Bool → Option Str → World → Answer × World
unsubscribe trip update_ok none w = (api_err 401 (codes "login required"), w)
unsubscribe trip update_ok (some addr) w =
    plan_passthrough trip update_ok addr on_unsubscribe none w

-- A request for a change of a subscription.
pub data Change : Type 0 where
  buy : SubscribeReq → Change
  cancel : Change

pub record Request : Type 0 where
  pub session : Option Str
  pub change : Change
  pub trip : Trip
  pub update_ok : Bool

abbrev pub changed : Change → Trip → Bool → Option Str → World → Answer × World
changed (buy req) trip update_ok session w = subscribe trip update_ok session req w
changed cancel trip update_ok session w = unsubscribe trip update_ok session w

unfoldable pub run : List Request → World → World
run [] w = w
run (r ∷ rs) w = run rs (changed r.change r.trip r.update_ok r.session w).1
