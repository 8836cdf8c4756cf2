-- ===== src/Payments/Subscription/Mirrored.antt =====
-- The column `users.plan` is the plan of the account, while no call and no update is lost.
use lets_embed.Prelude.{
  ℕ, ◌≡◌, refl, ap, sym, ◌∙◌, ◌⊎◌, inl, inr, Bool, true, false, Option, none, some, List, [], ◌∷◌,
  ◌==◌, subst, arith, Bool-cases, Option-cases,
}
use lets_embed.Prelude.Text.{Str, str_eq, str_eq_iff}
use lets_embed.Config
use lets_embed.Config.Listed.{plan-id}
use lets_embed.Prelude.Words.{sub_i64}
use lets_embed.Account.Wire.{SubscribeReq, Reply}
use lets_embed.Account.Storage.{Storage, balance_of}
use lets_embed.Account.Plans
use lets_embed.Account.Plans.{insufficient, refund_of, closed, with_plan, subscribe_to}
use lets_embed.Account.Object.{handle}
use lets_embed.GatewayWorker.Metering.{
  Call, answered, lost_before, lost_after, Accounts, put_account,
}
use lets_embed.DoClient.{Trip, call_do, delivered, returned}
use lets_embed.Login.Users.{Users, set_plan}
use lets_embed.Payments.Subscription.{
  World, status_code, relay, plan_passthrough, subscribe, unsubscribe, Change, buy, cancel, Request,
  changed, run,
}

-- Every row of the table has the plan of its account.
unfoldable pub IsMirrored : Users → Accounts → Type 0
IsMirrored [] accounts = Unit
IsMirrored (row ∷ us) accounts = (row.plan ≡ (accounts row.address).plan) × IsMirrored us accounts

str_eq-swap : (a b : Str) (v : Bool) → str_eq a b ≡ v → str_eq b a ≡ v
str_eq-swap a b v h = ground (arith, h, str_eq_iff a b, str_eq_iff b a)

-- What the object does for a change to the plan `p`: it answers with 200 and has the plan, or with
-- another status and keeps the plan it had.
IsSettled : Option Str → Storage → Reply × Storage → Type 0
IsSettled p s (r, s') =
    (returned r ≡ some r)
    × (((status_code r == 200 ≡ true) × (s'.plan ≡ p))
        ⊎ ((status_code r == 200 ≡ false) × (s'.plan ≡ s.plan)))

subscribe_to-IsSettled :
    (now later : ℕ) (target : Config.Plan) (s : Storage)
    → IsSettled (some target.id) s (subscribe_to now later target s)
unfolding subscribe_to with_plan IsSettled
subscribe_to-IsSettled now later target s =
    let net_cost = sub_i64 target.price_points (refund_of now s) in
    elim (Bool-cases (insufficient (balance_of s) net_cost)) [
      | inl e ↦ rw e (refl, inr (refl, refl))
      | inr e ↦ rw e (refl, inl (refl, refl))
    ]

subscribe-IsSettled :
    (now later : ℕ) (req : SubscribeReq) (s : Storage)
    → IsSettled (some req.plan) s (Plans.subscribe now later req s)
unfolding Plans.subscribe IsSettled Config.plan str_eq
subscribe-IsSettled now later req s = elim (Option-cases (Config.plan req.plan)) [
  | inl e ↦ rw e (refl, inr (refl, refl))
  | inr (target, e) ↦ rw e (
      subst (λ id. IsSettled (some id) s (subscribe_to now later target s))
        (plan-id req.plan target e) (subscribe_to-IsSettled now later target s))
]

unsubscribe-IsSettled :
    (now later : ℕ) (s : Storage) → IsSettled none s (Plans.unsubscribe now later s)
unfolding Plans.unsubscribe closed IsSettled
unsubscribe-IsSettled now later s = (refl, inl (refl, refl))

-- A write of an account leaves the rows of other principals as they are.
put-IsMirrored :
    (a : Str) (s : Storage) (us : Users) (accounts : Accounts)
    → s.plan ≡ (accounts a).plan
    → IsMirrored us accounts
    → IsMirrored us (put_account a s accounts)
unfolding IsMirrored
put-IsMirrored a s [] accounts same h = tt
put-IsMirrored a s (row ∷ us) accounts same (e, h) = (
  elim (Bool-cases (str_eq a row.address)) [
    | inl t ↦
        rw t (
          e ∙ ap (λ (b : Str). (accounts b).plan) (sym ((str_eq_iff a row.address).0 t)) ∙ sym same)
    | inr f ↦ rw f e
  ],
  put-IsMirrored a s us accounts same h,
)

set_plan-IsMirrored :
    (a : Str) (s : Storage) (p : Option Str) (us : Users) (accounts : Accounts)
    → s.plan ≡ p
    → IsMirrored us accounts
    → IsMirrored (set_plan p a us) (put_account a s accounts)
unfolding IsMirrored set_plan
set_plan-IsMirrored a s p [] accounts same h = tt
set_plan-IsMirrored a s p (row ∷ us) accounts same (e, h) = (
  elim (Bool-cases (str_eq a row.address)) [
    | inl t ↦ rw (str_eq-swap a row.address true t, t) (sym same)
    | inr f ↦ rw (str_eq-swap a row.address false f, f) e
  ],
  set_plan-IsMirrored a s p us accounts same h,
)

-- A change of which no part is lost: the answer of the object comes back or the request does not
-- reach it, and the database carries out the update.
unfoldable IsWhole : Request → Type 0
IsWhole r = ((r.trip.call ≡ answered) ⊎ (r.trip.call ≡ lost_before)) × (r.update_ok ≡ true)

unfoldable pub AllWhole : List Request → Type 0
unfolding IsWhole
AllWhole [] = Unit
AllWhole (r ∷ rs) = IsWhole r × AllWhole rs

-- The mirror follows the account.
delivered-IsMirrored :
    (call : Call) (a : Str) (p : Option Str) (w : World) (out : Reply × Storage)
    → (call ≡ answered) ⊎ (call ≡ lost_before)
    → IsSettled p (w.accounts a) out
    → IsMirrored w.users w.accounts
    → let w' = (relay true a p w.users (delivered call a out w.accounts)).1 in
      IsMirrored w'.users w'.accounts
unfolding relay delivered IsSettled
delivered-IsMirrored lost_before a p w out kept settled h = h
delivered-IsMirrored lost_after a p w out kept settled h = absurd (ground arith)
delivered-IsMirrored answered a p w (r, s') kept (back, inl (done, plan)) h =
    rw (back, done) (set_plan-IsMirrored a s' p w.users w.accounts plan h)
delivered-IsMirrored answered a p w (r, s') kept (back, inr (other, plan)) h =
    rw (back, other) (put-IsMirrored a s' w.users w.accounts plan h)

subscribe-IsMirrored :
    (trip : Trip) (session : Option Str) (req : SubscribeReq) (w : World)
    → (trip.call ≡ answered) ⊎ (trip.call ≡ lost_before)
    → IsMirrored w.users w.accounts
    → let w' = (subscribe trip true session req w).1 in IsMirrored w'.users w'.accounts
unfolding subscribe plan_passthrough call_do handle
subscribe-IsMirrored trip none req w kept h = h
subscribe-IsMirrored trip (some a) req w kept h =
    delivered-IsMirrored trip.call a (some req.plan) w
      (Plans.subscribe trip.now trip.later req (w.accounts a)) kept
      (subscribe-IsSettled trip.now trip.later req (w.accounts a)) h

unsubscribe-IsMirrored :
    (trip : Trip) (session : Option Str) (w : World)
    → (trip.call ≡ answered) ⊎ (trip.call ≡ lost_before)
    → IsMirrored w.users w.accounts
    → let w' = (unsubscribe trip true session w).1 in IsMirrored w'.users w'.accounts
unfolding unsubscribe plan_passthrough call_do handle
unsubscribe-IsMirrored trip none w kept h = h
unsubscribe-IsMirrored trip (some a) w kept h =
    delivered-IsMirrored trip.call a none w (Plans.unsubscribe trip.now trip.later (w.accounts a))
      kept (unsubscribe-IsSettled trip.now trip.later (w.accounts a)) h

changed-IsMirrored :
    (c : Change) (trip : Trip) (update_ok : Bool) (session : Option Str) (w : World)
    → (trip.call ≡ answered) ⊎ (trip.call ≡ lost_before)
    → update_ok ≡ true
    → IsMirrored w.users w.accounts
    → let w' = (changed c trip update_ok session w).1 in IsMirrored w'.users w'.accounts
changed-IsMirrored c trip false session w kept e h = absurd (ground arith)
changed-IsMirrored (buy req) trip true session w kept e h =
    subscribe-IsMirrored trip session req w kept h
changed-IsMirrored cancel trip true session w kept e h =
    unsubscribe-IsMirrored trip session w kept h

-- Over any sequence of requests to change a subscription, by any users and with any plan names, if
-- the call of each is answered or does not reach the account object and each update of the
-- database is carried out, the column `users.plan` of every row stays the plan of that principal's
-- account object.
pub run-IsMirrored :
    (rs : List Request) (w : World)
    → AllWhole rs
    → IsMirrored w.users w.accounts
    → IsMirrored (run rs w).users (run rs w).accounts
unfolding run AllWhole IsWhole
run-IsMirrored [] w whole h = h
run-IsMirrored (r ∷ rs) w ((kept, ok), whole) h =
    run-IsMirrored rs (changed r.change r.trip r.update_ok r.session w).1 whole
      (changed-IsMirrored r.change r.trip r.update_ok r.session w kept ok h)
