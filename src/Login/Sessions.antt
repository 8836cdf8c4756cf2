-- ===== src/Login/Sessions.antt =====
-- What has been shown when `verify` of user_worker/src/auth.rs issues a session.
use lets_embed.Prelude.{
  ℕ, ◌≡◌, refl, sym, ap, ◌∙◌, subst, Bool, true, false, Option, none, some, arith, inl, inr,
  Bool-cases,
}
use lets_embed.Prelude.Text.{Str, str_eq, str_eq_iff, str_eq_refl, to_lowercase}
use lets_embed.Prelude.Results.{ok, Result-cases}
use lets_embed.Session.{jwt_sign}
use lets_embed.Siwe.Message.{SiweMessage, parse_siwe}
use lets_embed.Siwe.Address.{recover_address, to_checksum}
use lets_embed.Login.Users.{upsert, is_banned}
use lets_embed.Login.World.{
  VerifyReq, Env, Trip, Call, answered, lost_before, lost_after, World, Reply, session, unless,
  put_nonce, take_nonce, claims_for, after_init, issued, enter,
}
use lets_embed.Login.Site.{IsForSite, message_reply-IsForSite}
use lets_embed.Login.Ethereum.{expiration_reply, message_reply, verify_signer, verify}

abbrev pub is_session : Reply → Bool
is_session (session t s) = true
is_session _ = false

unless_session :
    (m : Option Reply × World) (next : World → Reply × World)
    → ((r : Reply) → m.0 ≡ some r → is_session r ≡ false)
    → is_session (unless m next).0 ≡ true
    → (m.0 ≡ none) × (unless m next ≡ next m.1)
unless_session (some r, w) next h k = absurd (ground (arith, h r refl, k))
unless_session (none, w) next h k = (refl, refl)

take_nonce_refuses :
    (trip : Trip) (status : ℕ) (n : Str) (w : World) (r : Reply)
    → (take_nonce trip status n w).0 ≡ some r
    → is_session r ≡ false
unfolding take_nonce
take_nonce_refuses trip status n w r h = ground arith

take_nonce_lem :
    (trip : Trip) (status : ℕ) (n : Str) (w : World)
    → (take_nonce trip status n w).0 ≡ none
    → (w.nonces n ≡ true)
      × ((take_nonce trip status n w).1 ≡ record w { nonces = put_nonce n false w.nonces })
unfolding take_nonce
take_nonce_lem trip status n w h = ground arith

after_init_session :
    (call : Call) (reply : Reply) (touched w : World)
    → is_session (after_init call reply touched w).0 ≡ true
    → after_init call reply touched w ≡ (reply, touched)
unfolding after_init
after_init_session answered reply touched w h = refl
after_init_session lost_before reply touched w h = absurd (ground arith)
after_init_session lost_after reply touched w h = absurd (ground arith)

module _ {ℓ} {Signature : Type ℓ} (env : Env Signature) where
  message_refuses :
      (now : ℕ) (msg : SiweMessage) (r : Reply)
      → message_reply env now msg ≡ some r
      → is_session r ≡ false
  unfolding message_reply expiration_reply
  message_refuses now msg r h = ground arith

  -- What `enter` leaves when it issues a session.
  pub record IsEntered (trip : Trip) (addr : Str) (w : World) (out : Reply × World) : Type 0 where
    pub shown : Str
    pub reply :
        out.0 ≡ session (jwt_sign env.lib (claims_for env trip.now addr) env.jwt_secret) shown
    pub users : out.1.users ≡ upsert addr trip.now w.users
    pub allowed : is_banned addr out.1.users ≡ false
    pub nonces : out.1.nonces ≡ w.nonces

  abbrev entered : Trip → Str → World → World
  entered trip addr w = record w { users = upsert addr trip.now w.users }

  enter_reduces :
      (trip : Trip) (addr shown : Str) (w : World)
      → is_session (enter env trip addr shown w).0 ≡ true
      → (enter env trip addr shown w ≡ issued env trip addr shown (entered trip addr w))
        × (is_banned addr (upsert addr trip.now w.users) ≡ false)
  unfolding enter
  enter_reduces trip addr shown w h = ground arith

  enter_lem :
      (trip : Trip) (addr shown : Str) (w : World)
      → is_session (enter env trip addr shown w).0 ≡ true
      → IsEntered trip addr w (enter env trip addr shown w)
  unfolding issued
  enter_lem trip addr shown w h =
      let (e, allowed) = enter_reduces trip addr shown w h in
      let out =
        e
        ∙ after_init_session trip.init_call _ _ (entered trip addr w)
            (sym (ap (λ x. is_session x.0) e) ∙ h) in
      record {
        shown = shown;
        reply = ap (λ x. x.0) out;
        users = ap (λ x. x.1.users) out;
        allowed = ap (λ x. is_banned addr x.1.users) out ∙ allowed;
        nonces = ap (λ x. x.1.nonces) out;
      }

  -- What `verify` has shown of a message when it issues a session.
  pub record IsSigned (trip : Trip) (req : VerifyReq) (w : World) (out : Reply × World)
      : Type 0 where
    pub msg : SiweMessage
    pub parsed : parse_siwe req.message ≡ ok msg
    pub checked : IsForSite env trip.now msg
    pub stored : w.nonces msg.nonce ≡ true
    pub taken : out.1.nonces msg.nonce ≡ false
    pub addr : Str
    pub signer : recover_address env.crypto req.message req.signature ≡ ok addr
    pub claimed : addr ≡ to_lowercase msg.address
    pub entry : IsEntered trip addr (record w { nonces = put_nonce msg.nonce false w.nonces }) out

  verify_signer_lem :
      (trip : Trip) (req : VerifyReq) (msg : SiweMessage) (w : World)
      → is_session (verify_signer env trip req msg w).0 ≡ true
      → (addr : Str) × (recover_address env.crypto req.message req.signature ≡ ok addr)
        × (addr ≡ to_lowercase msg.address)
        × IsEntered trip addr w (verify_signer env trip req msg w)
  unfolding verify_signer
  verify_signer_lem trip req msg w h =
      let out = verify_signer env trip req msg w in
      elim (Result-cases (recover_address env.crypto req.message req.signature)) [
        | inl (m, e) ↦
            let no : is_session out.0 ≡ false = rw (e, verify_signer) refl in
            absurd (ground (arith, h, no))
        | inr (addr, e) ↦ elim (Bool-cases (str_eq addr (to_lowercase msg.address))) [
          | inr f ↦
              let no : is_session out.0 ≡ false = rw (e, verify_signer, f) refl in
              absurd (ground (arith, h, no))
          | inl f ↦
              let shown = to_checksum env.crypto.keccak256 addr in
              let same : out ≡ enter env trip addr shown w = rw (e, verify_signer, f) refl in
              let entry = enter_lem trip addr shown w (sym (ap (λ x. is_session x.0) same) ∙ h) in
              (
                addr,
                e,
                (str_eq_iff addr (to_lowercase msg.address)).0 f,
                subst (IsEntered trip addr w) (sym same) entry,
              )
        ]
      ]

  -- From the parsed message on.
  abbrev after_parse : Trip → VerifyReq → SiweMessage → World → Reply × World
  after_parse trip req msg w =
      unless (message_reply env trip.now msg, w)
        (λ w0. unless (take_nonce trip 401 msg.nonce w0) (λ w1. verify_signer env trip req msg w1))

  after_parse_lem :
      (trip : Trip) (req : VerifyReq) (msg : SiweMessage) (w : World)
      → parse_siwe req.message ≡ ok msg
      → is_session (after_parse trip req msg w).0 ≡ true
      → IsSigned trip req w (after_parse trip req msg w)
  after_parse_lem trip req msg w p h =
      let after_nonce : World → Reply × World = λ w1. verify_signer env trip req msg w1 in
      let taking : World → Reply × World =
        λ w0. unless (take_nonce trip 401 msg.nonce w0) after_nonce in
      let (checked, e0) =
        unless_session (message_reply env trip.now msg, w) taking (message_refuses trip.now msg)
          h in
      let (free, e1) =
        unless_session (take_nonce trip 401 msg.nonce w) after_nonce
          (take_nonce_refuses trip 401 msg.nonce w) (sym (ap (λ x. is_session x.0) e0) ∙ h) in
      let (stored, e2) = take_nonce_lem trip 401 msg.nonce w free in
      let w1 = record w { nonces = put_nonce msg.nonce false w.nonces } in
      let same : after_parse trip req msg w ≡ verify_signer env trip req msg w1 =
        e0 ∙ e1 ∙ ap after_nonce e2 in
      let (addr, signer, claimed, entry) =
        verify_signer_lem trip req msg w1 (sym (ap (λ x. is_session x.0) same) ∙ h) in
      let entry' = subst (IsEntered trip addr w1) (sym same) entry in
      record {
        msg = msg;
        parsed = p;
        checked = message_reply-IsForSite env trip.now msg checked;
        stored = stored;
        taken = ap (λ n. n msg.nonce) entry'.nonces ∙ rw (str_eq_refl msg.nonce) refl;
        addr = addr;
        signer = signer;
        claimed = claimed;
        entry = entry';
      }

  -- When `verify` answers with a session, its message has been parsed, names the domain of the
  -- site, version 1 and its chain, was issued at most 600 seconds before or after now, and has no
  -- expiry or one that is still to come; its nonce was stored before and is not stored after, the
  -- recovered signer is the address of the message in lower case, the row of that user is there
  -- and not banned, and the session is for that user.
  pub verify-IsSigned :
      (trip : Trip) (req : VerifyReq) (w : World)
      → is_session (verify env trip req w).0 ≡ true
      → IsSigned trip req w (verify env trip req w)
  unfolding verify
  verify-IsSigned trip req w h = elim (Result-cases (parse_siwe req.message)) [
    | inl (m, e) ↦
        let no : is_session (verify env trip req w).0 ≡ false = rw (e, verify) refl in
        absurd (ground (arith, h, no))
    | inr (msg, e) ↦
        let same : verify env trip req w ≡ after_parse trip req msg w = rw (e, verify) refl in
        subst (IsSigned trip req w) (sym same)
          (after_parse_lem trip req msg w e (sym (ap (λ x. is_session x.0) same) ∙ h))
  ]
