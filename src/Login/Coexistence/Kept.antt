-- ===== src/Login/Coexistence/Kept.antt =====
-- Every request of user_worker/src/auth.rs and user_worker/src/solana_link.rs keeps wallets apart
-- from accounts.
use lets_embed.Prelude.{
  ℕ, ◌≡◌, refl, sym, subst, true, false, Option, none, some, is_some, arith, inl, inr, Bool-cases,
  Option-cases,
}
use lets_embed.Prelude.Text.{Str, str_eq, to_lowercase}
use lets_embed.Prelude.Results.{Result-cases}
use lets_embed.Session.{is_eth_address, is_sol_principal}
use lets_embed.Session.Principals.{RefusesZero, eth_head}
use lets_embed.Siwe.Message.{SiweMessage, parse_siwe}
use lets_embed.Siwe.Address.{recover_address, to_checksum}
use lets_embed.Siwe.Address.Recovered.{IsCrypto, recover_address-is_eth_address}
use lets_embed.Login.Users.{Users, is_known, is_linked, owner_of, upsert, is_banned}
use lets_embed.Login.World.{
  VerifyReq, WalletReq, Env, Trip, Call, answered, lost_before, lost_after, World, Reply, unless,
  take_nonce, after_init, issued, enter,
}
use lets_embed.Login.Ethereum.{message_reply, verify_signer, verify}
use lets_embed.Login.Wallet.{
  verify_ed25519_b58, owned_by_other, enter_wallet, verify_solana, link_wallet, siws_challenge,
}
use lets_embed.Login.Coexistence.Table.{IsCoexistent, upsert-IsCoexistent, link-IsCoexistent}

-- A step that may answer and what follows it keep a property that both keep.
pub unless_keeps :
    (P : World → Type 0) (m : Option Reply × World) (next : World → Reply × World)
    → P m.1
    → ((w : World) → P w → P (next w).1)
    → P (unless m next).1
unless_keeps P (some r, w) next h k = h
unless_keeps P (none, w) next h k = k w h

users-take_nonce :
    (trip : Trip) (status : ℕ) (n : Str) (w : World)
    → (take_nonce trip status n w).1.users ≡ w.users
unfolding take_nonce
users-take_nonce trip status n w = ground arith

users-after_init :
    (call : Call) (reply : Reply) (touched w : World)
    → touched.users ≡ w.users
    → (after_init call reply touched w).1.users ≡ w.users
unfolding after_init
users-after_init answered reply touched w e = e
users-after_init lost_before reply touched w e = refl
users-after_init lost_after reply touched w e = e

module _ {ℓ} {Signature : Type ℓ} (env : Env Signature) where
  abbrev pub Kept : World → Type 0
  Kept w = IsCoexistent env.decode58 w.users

  pub Kept-take_nonce :
      (trip : Trip) (status : ℕ) (n : Str) (w : World)
      → Kept w
      → Kept (take_nonce trip status n w).1
  Kept-take_nonce trip status n w k =
      subst (IsCoexistent env.decode58) (sym (users-take_nonce trip status n w)) k

  users-issued :
      (trip : Trip) (addr shown : Str) (w : World)
      → (issued env trip addr shown w).1.users ≡ w.users
  unfolding issued
  users-issued trip addr shown w = users-after_init trip.init_call _ _ w refl

  Kept-enter :
      (trip : Trip) (addr shown : Str) (w : World)
      → is_linked addr w.users ≡ false
      → Kept w
      → Kept (enter env trip addr shown w).1
  unfolding enter issued
  Kept-enter trip addr shown w free k =
      let entered = upsert-IsCoexistent env.decode58 addr trip.now w.users free k in
      elim (Bool-cases trip.write_ok) [
        | inr e ↦ rw e k
        | inl e ↦ elim (Bool-cases trip.ban_ok) [
          | inr f ↦ rw (e, f) entered
          | inl f ↦ elim (Bool-cases (is_banned addr (upsert addr trip.now w.users))) [
            | inl g ↦ rw (e, f, g) entered
            | inr g ↦
                rw (e, f, g)
                  (subst (IsCoexistent env.decode58) (sym (users-issued trip addr shown _)) entered)
          ]
        ]
      ]

  -- An Ethereum principal is not linked, since a linked wallet is base58.
  eth_not_linked :
      RefusesZero env.decode58
      → (addr : Str) (us : Users) → is_eth_address addr ≡ true
      → IsCoexistent env.decode58 us
      → is_linked addr us ≡ false
  eth_not_linked z addr us h c = elim (Bool-cases (is_linked addr us)) [
    | inl e ↦ absurd (ground (arith, c.keys addr e, z addr (eth_head addr h)))
    | inr e ↦ e
  ]

  Kept-verify_signer :
      IsCrypto env.crypto
      → RefusesZero env.decode58
      → (trip : Trip) (req : VerifyReq) (msg : SiweMessage) (w : World) → Kept w
      → Kept (verify_signer env trip req msg w).1
  unfolding verify_signer
  Kept-verify_signer v z trip req msg w k =
      elim (Result-cases (recover_address env.crypto req.message req.signature)) [
        | inl (msg', e) ↦ rw (e, verify_signer) k
        | inr (addr, e) ↦ elim (Bool-cases (str_eq addr (to_lowercase msg.address))) [
          | inr f ↦ rw (e, verify_signer, f) k
          | inl f ↦
              let eth =
                recover_address-is_eth_address env.crypto v req.message req.signature addr e in
              rw (e, verify_signer, f)
                (Kept-enter trip addr (to_checksum env.crypto.keccak256 addr) w
                  (eth_not_linked z addr w.users eth k) k)
        ]
      ]

  pub Kept-verify :
      IsCrypto env.crypto
      → RefusesZero env.decode58
      → (trip : Trip) (req : VerifyReq) (w : World) → Kept w
      → Kept (verify env trip req w).1
  unfolding verify
  Kept-verify v z trip req w k = elim (Result-cases (parse_siwe req.message)) [
    | inl (msg', e) ↦ rw (e, verify) k
    | inr (msg, e) ↦
        rw (e, verify)
          (unless_keeps Kept (message_reply env trip.now msg, w) _ k
            (λ w0 k0.
              unless_keeps Kept (take_nonce trip 401 msg.nonce w0) _
                (Kept-take_nonce trip 401 msg.nonce w0 k0)
                (λ w1 k1. Kept-verify_signer v z trip req msg w1 k1)))
  ]

  Kept-enter_wallet :
      (trip : Trip) (addr : Str) (w : World) → Kept w → Kept (enter_wallet env trip addr w).1
  unfolding enter_wallet enter issued
  Kept-enter_wallet trip addr w k = elim (Bool-cases trip.owner_ok) [
    | inr e ↦ rw e k
    | inl e ↦ elim (Bool-cases (is_linked addr w.users)) [
      | inl f ↦ rw (e, f) k
      | inr f ↦ rw (e, f) (Kept-enter trip addr addr w f k)
    ]
  ]

  pub Kept-verify_solana :
      (trip : Trip) (req : WalletReq) (w : World) → Kept w → Kept (verify_solana env trip req w).1
  unfolding verify_solana
  Kept-verify_solana trip req w k =
      let checked =
        verify_ed25519_b58 env req.solana_address req.signature
          (siws_challenge env.siwe_domain req.nonce) in
      elim (Bool-cases (is_sol_principal env.decode58 req.solana_address)) [
        | inr e ↦ rw e k
        | inl e ↦ rw e (
            unless_keeps Kept (take_nonce trip 401 req.nonce w) _
              (Kept-take_nonce trip 401 req.nonce w k)
              (λ w1 k1. elim (Bool-cases checked) [
                | inl f ↦ rw f (Kept-enter_wallet trip req.solana_address w1 k1)
                | inr f ↦ rw f k1
              ]))
      ]

  pub Kept-link_wallet :
      (trip : Trip) (addr wallet : Str) (w : World)
      → is_some (env.decode58 wallet) ≡ true
      → Kept w
      → Kept (link_wallet trip addr wallet w).1
  unfolding link_wallet
  Kept-link_wallet trip addr wallet w d k = elim (Bool-cases trip.lookup_ok) [
    | inr e ↦ rw e k
    | inl e ↦ elim (Bool-cases (is_known wallet w.users)) [
      | inl f ↦ rw (e, f) k
      | inr f ↦ elim (Bool-cases trip.owner_ok) [
        | inr g ↦ rw (e, f, g) k
        | inl g ↦ elim (Bool-cases (owned_by_other addr (owner_of wallet w.users))) [
          | inl h ↦ rw (e, f, g, h) k
          | inr h ↦ elim (Bool-cases trip.write_ok) [
            | inr i ↦ rw (e, f, g, h, i) k
            | inl i ↦ rw (e, f, g, h, i) (link-IsCoexistent env.decode58 addr wallet w.users f d k)
          ]
        ]
      ]
    ]
  ]

  pub decoded_wallet :
      (wallet signature message : Str)
      → verify_ed25519_b58 env wallet signature message ≡ true
      → is_some (env.decode58 wallet) ≡ true
  unfolding verify_ed25519_b58
  decoded_wallet wallet signature message h = elim (Option-cases (env.decode58 wallet)) [
    | inl e ↦
        let refused : verify_ed25519_b58 env wallet signature message ≡ false =
          rw (e, verify_ed25519_b58) refl in
        absurd (ground (arith, h, refused))
    | inr (pk, e) ↦ rw e refl
  ]
