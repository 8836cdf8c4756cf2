-- ===== src/Admin/Handlers/Suspended.antt =====
-- A ban of user_worker/src/admin.rs, the account object, and the gateway worker in front of it.
use lets_embed.Prelude.{
  ℕ, ◌≡◌, refl, ap, ◌∙◌, Bool, true, false, not, all, ◌||◌, Option, none, some, is_some, unwrap_or,
  List, [], ◌∷◌, arith, Option-cases, inl, inr,
}
use lets_embed.Prelude.Text.{Str, codes}
use lets_embed.Account.Wire.{ChargeReq, error_reply, SubscribeReq}
use lets_embed.Account.Storage.{Storage}
use lets_embed.Account.Status.{ensure_init}
use lets_embed.Account.Charge.{charge}
use lets_embed.Account.Charge.Frame.{charge-SameAccount}
use lets_embed.Account.Credit.{credit}
use lets_embed.Account.Plans.{subscribe_to, subscribe, with_plan, unsubscribe, alarm, closed}
use lets_embed.Account.Object.{
  Event, on_init, on_charge, on_credit, on_status, on_subscribe, on_unsubscribe, on_ban, on_alarm,
  init, handle, Tick, step, run,
}
use lets_embed.Login.World
use lets_embed.Login.Users.{Users, is_banned, upsert}
use lets_embed.GatewayWorker.Proxy.{Request}
use lets_embed.GatewayWorker.Metering.{
  answered, Accounts, Answer, refused, delivered, stopped, metered, media_charge, search_charge,
  charge_do, signed_in, unless_stopped, out_of_points, out_of_points_json,
}
use lets_embed.GatewayWorker.Metering
use lets_embed.Admin.Handlers
use lets_embed.Admin.Handlers.{Env, World, BanForm, flag_of}
use lets_embed.Admin.Handlers.Credited.{is_redirect}
use lets_embed.Admin.Handlers.Banned.{ban-FollowsBan}

abbrev pub is_ban : Event → Bool
is_ban (on_ban req) = true
is_ban _ = false

-- A life in which nobody is banned or unbanned.
abbrev pub has_no_ban : List Tick → Bool
has_no_ban ts = all (λ (t : Tick). not (is_ban t.event)) ts

init_keeps : (s : Storage) → (ensure_init s).banned ≡ s.banned
unfolding ensure_init
init_keeps s = ground arith

subscribe_keeps :
    (now later : ℕ) (req : SubscribeReq) (s : Storage)
    → (subscribe now later req s).1.banned ≡ s.banned
unfolding subscribe subscribe_to with_plan
subscribe_keeps now later req s = ground arith

handle_keeps :
    (now later : ℕ) (event : Event) (s : Storage)
    → is_ban event ≡ false
    → (handle now later event s).1.banned ≡ s.banned
unfolding handle init credit unsubscribe alarm closed
handle_keeps now later (on_init req) s h = init_keeps s
handle_keeps now later (on_charge req) s h = (charge-SameAccount now req s).banned ∙ init_keeps s
handle_keeps now later (on_credit req) s h = ground arith
handle_keeps now later on_status s h = refl
handle_keeps now later (on_subscribe req) s h = subscribe_keeps now later req s
handle_keeps now later on_unsubscribe s h = ground arith
handle_keeps now later on_alarm s h = ground arith
handle_keeps now later (on_ban req) s h = absurd (ground arith)

run_keeps : (ts : List Tick) (s : Storage) → has_no_ban ts ≡ true → (run ts s).banned ≡ s.banned
unfolding run
run_keeps [] s h = refl
run_keeps (t ∷ ts) s h =
    run_keeps ts (step t s) (ground (arith, h))
    ∙ handle_keeps t.now t.later t.event s (ground (arith, h))

-- A charge of a banned account is refused, and only the free grant is given.
charge_banned :
    (now : ℕ) (req : ChargeReq) (s : Storage)
    → s.banned ≡ some true
    → charge now req s ≡ (error_reply (codes "banned") 403, ensure_init s)
unfolding charge
charge_banned now req s h =
    let flag : unwrap_or (ensure_init s).banned false ≡ true = rw (init_keeps s, h) refl in
    rw flag refl

abbrev suspended : Answer
suspended = refused 403 (codes "account suspended")

metered_banned :
    (env : Metering.Env) (sub : Str) (page : Answer) (req : ChargeReq) (w : Accounts)
    → env.call ≡ answered
    → (w sub).banned ≡ some true
    → (metered env sub page (some req) w).0 ≡ some suspended
unfolding metered stopped delivered
metered_banned env sub page req w call h = rw (call, charge_banned env.now req (w sub) h) refl

-- Whether the gateway charges for a request.
abbrev pub is_metered : (Str → Str) → Request → Bool
is_metered sha256_hex r = is_some (media_charge r) || is_some (search_charge sha256_hex r)

stops :
    (p : Option Answer × Accounts) (next : Accounts → Answer × Accounts) (a : Answer)
    → p.0 ≡ some a
    → (unless_stopped p next).0 ≡ a
stops (none, w) next a h = absurd (ground arith)
stops (some b, w) next a h = ground arith

signed_in_banned :
    (env : Metering.Env) (sub : Str) (r : Request) (w : Accounts)
    → env.call ≡ answered
    → (w sub).banned ≡ some true
    → is_metered env.sha256_hex r ≡ true
    → (signed_in env sub r w).0 ≡ suspended
unfolding signed_in metered
signed_in_banned env sub r w call h paid = elim (Option-cases (media_charge r)) [
  | inr (req, e) ↦
      stops (metered env sub out_of_points (media_charge r) w) _ suspended
        (rw e (metered_banned env sub out_of_points req w call h))
  | inl e ↦ elim (Option-cases (search_charge env.sha256_hex r)) [
    | inl e' ↦ absurd (ground (arith, e, e', paid))
    | inr (req, e') ↦
        let free : metered env sub out_of_points (media_charge r) w ≡ (none, w) = rw e refl in
        rw free (
          stops (metered env sub out_of_points_json (search_charge env.sha256_hex r) w) _ suspended
            (rw e' (metered_banned env sub out_of_points_json req w call h)))
  ]
]

upsert_banned :
    (a : Str) (now : ℕ) (us : Users) → is_banned a us ≡ true → is_banned a (upsert a now us) ≡ true
unfolding upsert
upsert_banned a now [] h = absurd (ground arith)
upsert_banned a now (row ∷ us) h = ground (arith, h, upsert_banned a now us)

enter_banned {ℓ} :
    {Signature : Type ℓ} (env : World.Env Signature) (trip : World.Trip) (addr shown : Str)
    (w : World.World)
    → trip.write_ok ≡ true
    → trip.ban_ok ≡ true
    → is_banned addr w.users ≡ true
    → (World.enter env trip addr shown w).0 ≡ World.failed 403 (codes "account banned")
unfolding World.enter
enter_banned env trip addr shown w h k banned =
    rw (h, k, upsert_banned addr trip.now w.users banned) refl

module _ (env : Env) (form : BanForm) (w : World)
    (told : is_redirect (Handlers.ban env form w).0 ≡ true) (bans : flag_of form ≡ true) where
  -- After a ban is answered with a redirect, and with any events of the account in between but
  -- another ban or its end, every metered request of that user whose charge is answered is refused
  -- by the gateway worker with 403.
  pub ban_suspends :
      (ts : List Tick)
      → has_no_ban ts ≡ true
      → (worker : Metering.Env) (r : Request) (accounts : Accounts) → worker.call ≡ answered
      → is_metered worker.sha256_hex r ≡ true
      → accounts form.address ≡ run ts ((Handlers.ban env form w).1.accounts form.address)
      → (signed_in worker form.address r accounts).0 ≡ refused 403 (codes "account suspended")
  ban_suspends ts quiet worker r accounts call paid same =
      let set : ((Handlers.ban env form w).1.accounts form.address).banned ≡ some true =
        (ban-FollowsBan env form w).account told ∙ ap some bans in
      let kept = run_keeps ts ((Handlers.ban env form w).1.accounts form.address) quiet in
      signed_in_banned worker form.address r accounts call
        (ap (λ (s : Storage). s.banned) same ∙ (kept ∙ set)) paid

  -- x
  pub ban_stops_login {ℓ} :
      {Signature : Type ℓ} (login : World.Env Signature) (trip : World.Trip) (shown : Str)
      (state : World.World)
      → trip.write_ok ≡ true
      → trip.ban_ok ≡ true
      → state.users ≡ (Handlers.ban env form w).1.users
      → (World.enter login trip form.address shown state).0
        ≡ World.failed 403 (codes "account banned")
  ban_stops_login login trip shown state h k same =
      enter_banned login trip form.address shown state h k
        (rw same ((ban-FollowsBan env form w).mirror told ∙ bans))
