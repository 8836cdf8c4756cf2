-- ===== src/GatewayWorker/Metering/Charged.antt =====
-- What a request has paid when `gateway` of gateway_worker/src/lib.rs sends it on.
use lets_embed.Prelude.{
  ℕ, ◌≡◌, refl, sym, ap, ◌∙◌, Bool, true, false, Option, none, some, arith, inl, inr, Bool-cases,
  Option-cases, subst,
}
use lets_embed.Prelude.Text.{Str}
use lets_embed.Session.{SessionClaims}
use lets_embed.Account.Wire.{ChargeReq, Reply}
use lets_embed.Account.Charge.{charge}
use lets_embed.Account.Storage.{Storage}
use lets_embed.GatewayWorker.Proxy.{Request, Outgoing, proxy}
use lets_embed.GatewayWorker.Metering.Due.{first_of, metered_as, IsDue, metered_as-IsDue}
use lets_embed.GatewayWorker.Metering.{
  Answer, out_of_points, out_of_points_json, to_upstream, Call, answered, lost_before, lost_after,
  Accounts, put_account, Env, status_of, delivered, charge_do, stopped, media_charge, search_charge,
  metered, signed_out, session_of, is_user_path, unless_stopped, signed_in, gateway,
}

-- The object of the principal has answered the charge with 200, and nothing else has changed.
pub record IsPaid (env : Env) (sub : Str) (req : ChargeReq) (w w' : Accounts) : Type 0 where
  pub status : status_of (charge env.now req (w sub)).0 ≡ some 200
  pub after : w' ≡ put_account sub (charge env.now req (w sub)).1 w

abbrev pub IsMetered : Env → Str → Option ChargeReq → Accounts → Accounts → Type 0
IsMetered env sub none w w' = w' ≡ w
IsMetered env sub (some req) w w' = IsPaid env sub req w w'

-- Pages never count as sent on.
abbrev is_sent : Answer → Bool
is_sent (to_upstream o) = true
is_sent _ = false

stopped_lem : (page : Answer) (status : Option ℕ) → stopped page status ≡ none → status ≡ some 200
unfolding stopped
stopped_lem page none h = absurd (ground arith)
stopped_lem page (some n) h = ground arith

delivered_lem :
    (call : Call) (sub : Str) (answer : Reply × Storage) (w : Accounts)
    → (delivered call sub answer w).0 ≡ some 200
    → (status_of answer.0 ≡ some 200)
      × ((delivered call sub answer w).1 ≡ put_account sub answer.1 w)
unfolding delivered
delivered_lem answered sub answer w h = (h, refl)
delivered_lem lost_before sub answer w h = absurd (ground arith)
delivered_lem lost_after sub answer w h = absurd (ground arith)

charge_do_lem :
    (env : Env) (sub : Str) (req : ChargeReq) (w : Accounts)
    → (charge_do env sub req w).0 ≡ some 200
    → IsPaid env sub req w (charge_do env sub req w).1
charge_do_lem env sub req w h =
    let (status, after) = delivered_lem env.call sub (charge env.now req (w sub)) w h in
    record { status = status; after = after }

metered_lem :
    (env : Env) (sub : Str) (page : Answer) (req : Option ChargeReq) (w : Accounts)
    → (metered env sub page req w).0 ≡ none
    → IsMetered env sub req w (metered env sub page req w).1
unfolding metered
metered_lem env sub page none w h = refl
metered_lem env sub page (some req) w h =
    charge_do_lem env sub req w (stopped_lem page (charge_do env sub req w).0 h)

-- A request that is stopped is not sent on.
stopped_not_sent :
    (page a : Answer) (status : Option ℕ)
    → is_sent page ≡ false
    → stopped page status ≡ some a
    → is_sent a ≡ false
unfolding stopped
stopped_not_sent page a none e h = ground arith
stopped_not_sent page a (some n) e h = ground arith

metered_not_sent :
    (env : Env) (sub : Str) (page : Answer) (req : Option ChargeReq) (w : Accounts) (a : Answer)
    → is_sent page ≡ false
    → (metered env sub page req w).0 ≡ some a
    → is_sent a ≡ false
unfolding metered
metered_not_sent env sub page none w a e h = absurd (ground arith)
metered_not_sent env sub page (some req) w a e h =
    stopped_not_sent page a (charge_do env sub req w).0 e h

unless_stopped_lem :
    (m : Option Answer × Accounts) (next : Accounts → Answer × Accounts) (o : Outgoing)
    (w' : Accounts)
    → ((a : Answer) → m.0 ≡ some a → is_sent a ≡ false)
    → unless_stopped m next ≡ (to_upstream o, w')
    → (m.0 ≡ none) × (next m.1 ≡ (to_upstream o, w'))
unless_stopped_lem (some a, w) next o w' h k =
    absurd (ground (arith, h a refl, ap (λ x. is_sent x.0) k))
unless_stopped_lem (none, w) next o w' h k = (refl, k)

-- A `GET` of media is not a `POST` of a search.
one_charge :
    (sha256_hex : Str → Str) (r : Request) (req : ChargeReq)
    → media_charge r ≡ some req
    → search_charge sha256_hex r ≡ none
unfolding media_charge search_charge
one_charge sha256_hex r req h = ground arith

combined :
    (env : Env) (sub : Str) (m s : Option ChargeReq) (w w1 w2 : Accounts)
    → ((req : ChargeReq) → m ≡ some req → s ≡ none)
    → IsMetered env sub m w w1
    → IsMetered env sub s w1 w2
    → IsMetered env sub (first_of m s) w w2
combined env sub none s w w1 w2 one h k = subst (λ x. IsMetered env sub s x w2) h k
combined env sub (some req) s w w1 w2 one h k =
    let same : w2 ≡ w1 = subst (λ x. IsMetered env sub x w1 w2) (one req refl) k in
    subst (λ x. IsPaid env sub req w x) (sym same) h

-- The request in an answer that is sent on.
abbrev request_of : Outgoing → Answer → Outgoing
request_of other (to_upstream o) = o
request_of other _ = other

module _ (env : Env) (sub : Str) (r : Request) (w : Accounts) where
  abbrev after_view : Accounts
  after_view = (metered env sub out_of_points (media_charge r) w).1

  abbrev after_search : Accounts
  after_search = (metered env sub out_of_points_json (search_charge env.sha256_hex r) after_view).1

  signed_in_lem :
      (o : Outgoing) (w' : Accounts)
      → signed_in env sub r w ≡ (to_upstream o, w')
      → IsMetered env sub (metered_as env.sha256_hex r) w w'
        × (o ≡ proxy env.client_id env.client_secret r)
  unfolding signed_in metered_as
  signed_in_lem o w' h =
      let (e1, h1) =
        unless_stopped_lem (metered env sub out_of_points (media_charge r) w) _ o w'
          (λ a. metered_not_sent env sub out_of_points (media_charge r) w a refl) h in
      let (e2, h2) =
        unless_stopped_lem
          (metered env sub out_of_points_json (search_charge env.sha256_hex r) after_view) _ o w'
          (λ a.
            metered_not_sent env sub out_of_points_json (search_charge env.sha256_hex r) after_view
              a refl)
          h1 in
      let paid =
        combined env sub (media_charge r) (search_charge env.sha256_hex r) w after_view after_search
          (one_charge env.sha256_hex r) (metered_lem env sub out_of_points (media_charge r) w e1)
          (metered_lem env sub out_of_points_json (search_charge env.sha256_hex r) after_view e2) in
      (
        subst (IsMetered env sub (metered_as env.sha256_hex r) w) (ap (λ x. x.1) h2) paid,
        sym (ap (λ x. request_of o x.0) h2),
      )

signed_out_not_sent : (r : Request) → is_sent (signed_out r) ≡ false
unfolding signed_out
signed_out_not_sent r = ground arith

pub gateway-signed_in :
    (env : Env) (r : Request) (w : Accounts) (c : SessionClaims)
    → is_user_path r.path ≡ false
    → session_of env r ≡ some c
    → gateway env r w ≡ signed_in env c.sub r w
unfolding gateway
gateway-signed_in env r w c other e = rw (other, e) refl

-- A request that is sent to an upstream has a session, leaves as `proxy` makes it, and has been
-- paid for: each GET of an image or a video and each POST of a search with its field is metered;
-- if it is metered, the account object of the session's principal answered the charge with 200,
-- and the accounts are those after that charge; if it is not, no account has changed.
pub gateway-IsMetered :
    (env : Env) (r : Request) (w w' : Accounts) (o : Outgoing)
    → gateway env r w ≡ (to_upstream o, w')
    → (c : SessionClaims) × (session_of env r ≡ some c)
      × IsDue env.sha256_hex r (metered_as env.sha256_hex r)
      × IsMetered env c.sub (metered_as env.sha256_hex r) w w'
      × (o ≡ proxy env.client_id env.client_secret r)
unfolding gateway
gateway-IsMetered env r w w' o h = elim (Bool-cases (is_user_path r.path)) [
  | inl user ↦ absurd (ground (arith, ap (λ x. is_sent x.0) h))
  | inr other ↦ elim (Option-cases (session_of env r)) [
    | inl e ↦ absurd (ground (arith, signed_out_not_sent r, ap (λ x. is_sent x.0) h))
    | inr (c, e) ↦
        let (paid, out) =
          signed_in_lem env c.sub r w o w' (sym (gateway-signed_in env r w c other e) ∙ h) in
        (c, e, metered_as-IsDue env.sha256_hex r, paid, out)
  ]
]
