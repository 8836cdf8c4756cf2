-- ===== src/DoClient.antt =====
-- The client of the account objects, user_worker/src/do_client.rs. A call reaches the object of a
-- principal, and its answer comes back, or is lost before or after the object has worked on it.
use lets_embed.Prelude.{ℕ, Option, none, some, ◌==◌, if◌then◌else◌}
use lets_embed.Prelude.Text.{Str}
use lets_embed.Account.Wire.{
  StatusResp, BalanceResp, CreditReq, Reply, balance_reply, status_reply, panicked,
}
use lets_embed.Account.Storage.{Storage}
use lets_embed.Account.Object.{Event, on_status, on_init, on_credit, handle}
use lets_embed.GatewayWorker.Metering.{
  Call, answered, lost_before, lost_after, Accounts, put_account,
}

-- What becomes of a call, and the readings of the clock that the object takes.
pub record Trip : Type 0 where
  pub call : Call
  pub now : ℕ
  pub later : ℕ

-- A panic of the object fails the call.
abbrev pub returned : Reply → Option Reply
returned panicked = none
returned r = some r

unfoldable pub delivered : Call → Str → Reply × Storage → Accounts → Option Reply × Accounts
delivered answered addr (r, s) w = (returned r, put_account addr s w)
delivered lost_before addr (r, s) w = (none, w)
delivered lost_after addr (r, s) w = (none, put_account addr s w)

-- `call_do`.
unfoldable pub call_do : Trip → Str → Event → Accounts → Option Reply × Accounts
call_do trip addr event w = delivered trip.call addr (handle trip.now trip.later event (w addr)) w

-- The body of an answer with the status 200, by its shape.
abbrev pub status_body : Option Reply → Option StatusResp
status_body (some (status_reply r status)) = if status == 200 then some r else none
status_body _ = none

abbrev pub balance_body : Option Reply → Option BalanceResp
balance_body (some (balance_reply r status)) = if status == 200 then some r else none
balance_body _ = none

unfoldable pub do_status : Trip → Str → Accounts → Option StatusResp × Accounts
do_status trip addr w = let (r, w') = call_do trip addr on_status w in (status_body r, w')

unfoldable pub do_init : Trip → Str → Accounts → Option StatusResp × Accounts
do_init trip addr w =
    let (r, w') = call_do trip addr (on_init (record { address = addr })) w in (status_body r, w')

unfoldable pub do_credit : Trip → Str → CreditReq → Accounts → Option BalanceResp × Accounts
do_credit trip addr req w =
    let (r, w') = call_do trip addr (on_credit req) w in (balance_body r, w')
