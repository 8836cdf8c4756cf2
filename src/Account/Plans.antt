-- ===== src/Account/Plans.antt =====
-- Subscriptions in user_worker/src/account_do.rs: subscribe, unsubscribe and the alarm at the end
-- of a period. The clock is read once by a handler (`now`) and once more by the status report that
-- it answers with (`later`).
pub mod Refund
pub mod Conserve
use lets_embed.Prelude.{
  ℕ, ◌-◌, Bool, true, false, ◌&&◌, Option, none, some, ltb, is_some, unwrap_or, and_then,
  if◌then◌else◌,
}
use mathlib.Core.Option
use lets_embed.Prelude.Int.{ℤ, pos, ltb_ℤ, max_ℤ}
use lets_embed.Prelude.Words.{add_i64, sub_i64, add_u64, sub_u64, mul_u64, of_bits}
use lets_embed.Prelude.Text.{codes}
use lets_embed.Config
use lets_embed.Config.{Plan}
use lets_embed.Account.Wire.{SubscribeReq, Reply, status_reply, error_reply, empty_reply}
use lets_embed.Account.Decide.{prorated_refund}
use lets_embed.Account.Storage.{Storage, balance_of, period_end_of}
use lets_embed.Account.Status.{plan_active, status_resp}

-- The refund for the unused remainder of the stored plan.
unfoldable pub refund_of : ℕ → Storage → ℤ
refund_of now s =
    if plan_active s now
    then unwrap_or
        (Option.map
          (λ (cur : Plan).
            prorated_refund cur.price_points cur.period_secs (sub_u64 (period_end_of s) now))
          (and_then s.plan Config.plan))
        (pos 0)
    else pos 0

-- The writes of a successful subscribe.
unfoldable pub with_plan : ℕ → Plan → ℤ → Storage → Storage
with_plan now target funds s =
    let new_end = add_u64 now target.period_secs in
    record s {
      balance = some funds;
      plan = some target.id;
      period_end = some new_end;
      win_start = some now;
      win_views = some (pos 0);
      win_search = some (pos 0);
      alarm = some (of_bits (mul_u64 (new_end - now) 1000));
    }

-- `net_cost > 0 && balance < net_cost`.
abbrev pub insufficient : ℤ → ℤ → Bool
insufficient funds net_cost = ltb_ℤ (pos 0) net_cost && ltb_ℤ funds net_cost

unfoldable pub subscribe_to : ℕ → ℕ → Plan → Storage → Reply × Storage
subscribe_to now later target s =
    let net_cost = sub_i64 target.price_points (refund_of now s) in
    let new_balance = max_ℤ (sub_i64 (balance_of s) net_cost) (pos 0) in
    let s' = with_plan now target new_balance s in
    if insufficient (balance_of s) net_cost
    then (error_reply (codes "insufficient balance") 402, s)
    else (status_reply (status_resp later s') 200, s')

unfoldable pub subscribe : ℕ → ℕ → SubscribeReq → Storage → Reply × Storage
subscribe now later req s = elim (Config.plan req.plan) [
  | none ↦ (error_reply (codes "unknown plan") 400, s)
  | some target ↦ subscribe_to now later target s
]

-- The keys that a lapse deletes in `unsubscribe`; the alarm keeps `period_end`.
unfoldable pub closed : Storage → Storage
closed s = record s { plan = none; win_start = none; win_views = none; win_search = none }

abbrev refunded : ℕ → Storage → Storage
refunded now s =
    if plan_active s now
    then record s { balance = some (add_i64 (balance_of s) (refund_of now s)) }
    else s

unfoldable pub unsubscribe : ℕ → ℕ → Storage → Reply × Storage
unfolding closed
unsubscribe now later s =
    let s' = record (closed (refunded now s)) { period_end = none; alarm = none } in
    (status_reply (status_resp later s') 200, s')

unfoldable pub alarm : ℕ → Storage → Reply × Storage
unfolding closed
alarm now s =
    if is_some s.plan
    then if ltb now (period_end_of s)
      then (
        empty_reply,
        record s { alarm = some (of_bits (mul_u64 (sub_u64 (period_end_of s) now) 1000)) },
      )
      else (empty_reply, closed s)
    else (empty_reply, s)
