-- ===== src/Account/Tests.antt =====
-- Accounts of user_worker/src/account_do.rs at concrete requests and times.
use lets_embed.Prelude.{ℕ, ◌+◌, ◌-◌, ◌≤◌, ◌<◌, ◌≡◌, refl, arith, true, some, none, List, [], ◌∷◌}
use lets_embed.Prelude.Int.{pos, negsuc, ◌+ℤ◌, ◌-ℤ◌}
use lets_embed.Prelude.Words.{i64_max, u64_mod, wrap_i64}
use lets_embed.Prelude.Text.{codes, str_key, str_eq}
use lets_embed.Account.Wire.{
  image, search, ChargeReq, CreditReq, InitReq, SubscribeReq, balance_reply,
}
use lets_embed.Account.Decide.{
  should_roll, searches_remaining, view_cost, is_recent_view, decide_charge,
}
use lets_embed.Account.Storage.{Storage, untouched, balance_of, period_end_of}
use lets_embed.Account.Status.{ensure_init, plan_active, status_resp, window_fields}
use lets_embed.Account.Charge.{
  charge, charge_open, charge_new, settled, is_repeat, recorded, source_of, rolled, drawn,
}
use lets_embed.Account.Charge.Spend.{spent, charge-spends}
use lets_embed.Account.Quota.{IsMetered}
use lets_embed.Account.Quota.Life.{run-IsMetered}
use lets_embed.Account.Report.{IsCovered}
use lets_embed.Account.Hazards.{credit_before_init_lost}
use lets_embed.Account.Solvent.Credit.{credit_fresh}
use lets_embed.Account.Memory.Repeats.{IsAccepted, repeat_free}
use lets_embed.Account.Credit.{credit}
use lets_embed.Account.Plans.{subscribe, unsubscribe}
use lets_embed.Account.Object.{
  Event, on_init, on_charge, on_credit, on_subscribe, on_unsubscribe, Tick, handle, init, run,
}
use lets_embed.Config.{plan}
use lets_embed.Account.Solvent.{IsSolvent}
use lets_embed.Account.Solvent.Life.{InOrder, total_paid, run-solvent}
use lets_embed.Account.Plans.Refund.{unused, share, price_of, unused_anti}
use lets_embed.Account.Plans.Conserve.{
  outcome, Conserved, subscribe-eq-outcome, subscribe-conserves, unsubscribe-conserves,
}

abbrev login : InitReq
login = record { address = codes "0xabc" }

abbrev topup : CreditReq
topup = record { points = pos 100000; key = codes "tx:0x01"; reason = codes "topup" }

abbrev buy_basic : SubscribeReq
buy_basic = record { plan = codes "basic" }

abbrev view : ChargeReq
view = record { path = codes "a.jpg"; kind = image }

abbrev lookup : ChargeReq
lookup = record { path = codes "s:cat"; kind = search }

abbrev tick : ℕ → Event → Tick
tick now e = record { now = now; later = now; event = e }

abbrev life : List Tick
life =
    tick 1000 (on_init login)
    ∷ tick 2000 (on_credit topup)
    ∷ tick 2000 (on_credit topup)
    ∷ tick 3000 (on_subscribe buy_basic)
    ∷ tick 4000 (on_charge view)
    ∷ tick 5000 on_unsubscribe
    ∷ []

-- A basic plan half way through its period, with points left.
abbrev subscriber : Storage
subscriber = record untouched {
  init = some true;
  balance = some (pos 40000);
  plan = some (codes "basic");
  period_end = some 2592000;
  win_start = some 1290000;
  win_views = some (pos 10);
  win_search = some (pos 2);
}

life-InOrder : InOrder 0 life
life-InOrder = omega arith

life_room : 3000 + total_paid life untouched ≤ i64_max
unfolding handle credit subscribe init ensure_init str_eq
life_room = omega arith

run-solvent_example :
    (n : ℕ) × (balance_of (run life untouched) ≡ pos n)
    × (n + unused 5000 (run life untouched) ≤ 3000 + total_paid life untouched)
run-solvent_example = run-solvent life life-InOrder life_room

untouched-IsSolvent : IsSolvent 1000 0 untouched
unfolding unused plan_active
untouched-IsSolvent = record { holds = refl; covered = omega arith; ends = omega arith }

-- A plan bought 1,296,000 seconds before its end is worth half its price.
subscriber-unused : unused 1296000 subscriber ≡ 10000
unfolding unused plan_active share price_of plan str_eq
subscriber-unused = refl

subscriber_fits : 40000 + unused 1296000 subscriber ≤ i64_max
subscriber_fits = omega (arith, subscriber-unused)

subscriber_ends : period_end_of subscriber < u64_mod
subscriber_ends = omega arith

subscribe-eq-outcome_example :
    subscribe 1296000 1296000 buy_basic subscriber
    ≡ outcome 1296000 subscriber {funds = 40000} refl subscriber_ends subscriber_fits 1296000
        (plan buy_basic.plan)
subscribe-eq-outcome_example =
    subscribe-eq-outcome 1296000 subscriber {funds = 40000} refl subscriber_ends subscriber_fits
      1296000 buy_basic

subscribe-conserves_example :
    Conserved 1296000 subscriber {funds = 40000} refl subscriber_ends subscriber_fits
      (omega arith)
      buy_basic.plan
      (subscribe 1296000 1296000 buy_basic subscriber).1
subscribe-conserves_example =
    subscribe-conserves 1296000 subscriber {funds = 40000} refl subscriber_ends subscriber_fits
      (omega arith) 1296000 buy_basic

unsubscribe-conserves_example :
    (balance_of (unsubscribe 1296000 1296000 subscriber).1
      ≡ pos (40000 + unused 1296000 subscriber))
    × ((unsubscribe 1296000 1296000 subscriber).1.plan ≡ none)
    × ((t : ℕ) → unused t (unsubscribe 1296000 1296000 subscriber).1 ≡ 0)
unsubscribe-conserves_example =
    unsubscribe-conserves 1296000 subscriber {funds = 40000} refl subscriber_ends subscriber_fits
      1296000

unused_anti_example : unused 2000000 subscriber ≤ unused 1296000 subscriber
unused_anti_example = unused_anti 1296000 2000000 subscriber (omega arith)

granted_balance : balance_of (ensure_init untouched) ≡ pos 3000
unfolding ensure_init
granted_balance = refl

charge-spends_example :
    (spent 1000 lookup (ensure_init untouched) ≤ 3000)
    × (balance_of (charge 1000 lookup untouched).1
        ≡ pos (3000 - spent 1000 lookup (ensure_init untouched)))
charge-spends_example =
    charge-spends 1000 lookup untouched {funds = 3000} granted_balance (omega arith)

view-IsAccepted : IsAccepted (charge 1296000 view subscriber).0
unfolding charge charge_open charge_new settled is_repeat is_recent_view recorded source_of rolled
    decide_charge plan_active drawn ensure_init plan str_eq wrap_i64 ◌+ℤ◌ should_roll view_cost
view-IsAccepted = refl

abbrev between : List Tick
between = tick 1297000 on_unsubscribe ∷ tick 1298000 (on_charge lookup) ∷ []

repeat_free_example :
    let s' = run between (charge 1296000 view subscriber).1 in
    ((charge 1382399 view s').1 ≡ s') × (¬ (IsAccepted (charge 1382399 view s').0))
repeat_free_example =
    repeat_free view view 1296000 1382399 between subscriber refl (omega arith) view-IsAccepted
      (omega arith) (omega arith) (omega arith) (omega arith)

abbrev replayed : CreditReq
replayed = record { points = pos 7; key = codes "tx:0x01"; reason = codes "again" }

run-IsMetered_example : IsMetered (run life untouched)
run-IsMetered_example = run-IsMetered life

subscriber-IsMetered : IsMetered subscriber
unfolding plan str_eq
subscriber-IsMetered = omega arith

subscriber-IsCovered : IsCovered search (status_resp 1296000 subscriber)
unfolding status_resp plan_active window_fields should_roll searches_remaining plan str_eq ◌-ℤ◌
    wrap_i64
subscriber-IsCovered = (8, refl, omega arith)

abbrev penalty : CreditReq
penalty = record { points = negsuc 49999; key = codes "admin:1"; reason = codes "abuse" }

credit_fresh_example :
    ((credit penalty subscriber).0 ≡ balance_reply (record { balance = pos 0; applied = true }) 200)
    × ((credit penalty subscriber).1.balance ≡ some (pos 0))
    × ((credit penalty subscriber).1.credit penalty.key ≡ some true)
credit_fresh_example =
    credit_fresh penalty subscriber {funds = 40000} refl refl (omega arith) (omega arith)

credit_before_init_lost_example :
    balance_of (init 2000 login (credit topup untouched).1).1 ≡ pos 3000
credit_before_init_lost_example = credit_before_init_lost topup login 2000 untouched refl

abbrev whale : CreditReq
whale = record { points = pos 9223372036854775807; key = codes "tx:0x02"; reason = codes "topup" }

abbrev long_after : List Tick
long_after = tick 259200000 (on_charge view) ∷ tick 345600000 (on_charge lookup) ∷ []
