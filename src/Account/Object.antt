-- ===== src/Account/Object.antt =====
-- The whole object of user_worker/src/account_do.rs: the remaining handlers, the dispatch of
-- `fetch`, and a life of the object as a sequence of events.
use lets_embed.Prelude.{ℕ, some, List, [], ◌∷◌}
use lets_embed.Account.Wire.{
  ChargeReq, CreditReq, InitReq, SubscribeReq, BanReq, Reply, status_reply,
}
use lets_embed.Account.Storage.{Storage}
use lets_embed.Account.Status.{ensure_init, status_resp}
use lets_embed.Account.Charge.{charge}
use lets_embed.Account.Credit.{credit}
use lets_embed.Account.Plans.{subscribe, unsubscribe, alarm}

unfoldable pub init : ℕ → InitReq → Storage → Reply × Storage
init later req s =
    let s' = record (ensure_init s) { address = some req.address } in
    (status_reply (status_resp later s') 200, s')

unfoldable pub ban : ℕ → BanReq → Storage → Reply × Storage
ban later req s =
    let s' = record s { banned = some req.banned } in (status_reply (status_resp later s') 200, s')

-- What reaches the object: a request, by its route, or the alarm.
pub data Event : Type 0 where
  on_init : InitReq → Event
  on_charge : ChargeReq → Event
  on_credit : CreditReq → Event
  on_status : Event
  on_subscribe : SubscribeReq → Event
  on_unsubscribe : Event
  on_ban : BanReq → Event
  on_alarm : Event

-- One event at the time `now`, with the status report taken at `later`.
unfoldable pub handle : ℕ → ℕ → Event → Storage → Reply × Storage
handle now later (on_init req) s = init later req s
handle now later (on_charge req) s = charge now req s
handle now later (on_credit req) s = credit req s
handle now later on_status s = (status_reply (status_resp later s) 200, s)
handle now later (on_subscribe req) s = subscribe now later req s
handle now later on_unsubscribe s = unsubscribe now later s
handle now later (on_ban req) s = ban later req s
handle now later on_alarm s = alarm now s

-- An event with the readings of the clock that its handler takes.
pub record Tick : Type 0 where
  pub now : ℕ
  pub later : ℕ
  pub event : Event

abbrev pub step : Tick → Storage → Storage
step t s = (handle t.now t.later t.event s).1

-- A life of the object: the runtime delivers one event after another.
unfoldable pub run : List Tick → Storage → Storage
run [] s = s
run (t ∷ ts) s = run ts (step t s)
