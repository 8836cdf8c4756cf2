-- ===== src/Login/Coexistence/Run.antt =====
-- Every order of the requests of user_worker/src/auth.rs and user_worker/src/solana_link.rs keeps
-- wallets apart from accounts.
use lets_embed.Prelude.{Option, List, [], ◌∷◌, inl, inr, Bool-cases, Option-cases}
use lets_embed.Prelude.Text.{Str}
use lets_embed.Session.{session_address}
use lets_embed.Session.Principals.{RefusesZero}
use lets_embed.Siwe.Address.Recovered.{IsCrypto}
use lets_embed.Login.World.{WalletReq, Env, Trip, World, take_nonce, nonce}
use lets_embed.Login.Wallet.{verify_ed25519_b58, link, unlink, challenge_message}
use lets_embed.Login.Coexistence.Table.{IsCoexistent, unlink-IsCoexistent}
use lets_embed.Login.Coexistence.Kept.{
  unless_keeps, Kept, Kept-take_nonce, Kept-verify, Kept-verify_solana, Kept-link_wallet,
  decoded_wallet,
}
use lets_embed.Login.Life.{
  Event, on_nonce, on_verify, on_verify_solana, on_link, on_unlink, handle, run,
}

module _ {ℓ} {Signature : Type ℓ} (env : Env Signature) where
  abbrev session_of : Trip → Option Str → Option Str
  session_of trip cookie = session_address env.decode58 env.lib cookie env.jwt_secret trip.now

  Kept-link :
      (trip : Trip) (cookie : Option Str) (req : WalletReq) (w : World)
      → Kept env w
      → Kept env (link env trip cookie req w).1
  unfolding link
  Kept-link trip cookie req w k = elim (Option-cases (session_of trip cookie)) [
    | inl e ↦ rw (e, link) k
    | inr (addr, e) ↦
        let checked =
          verify_ed25519_b58 env req.solana_address req.signature
            (challenge_message addr req.nonce) in
        rw (e, link)
          (unless_keeps (Kept env) (take_nonce trip 400 req.nonce w) _
            (Kept-take_nonce env trip 400 req.nonce w k)
            (λ w1 k1. elim (Bool-cases checked) [
              | inl f ↦ rw f (
                  Kept-link_wallet env trip addr req.solana_address w1
                    (decoded_wallet env req.solana_address req.signature _ f) k1)
              | inr f ↦ rw f k1
            ]))
  ]

  Kept-unlink :
      (trip : Trip) (cookie : Option Str) (w : World)
      → Kept env w
      → Kept env (unlink env trip cookie w).1
  unfolding unlink
  Kept-unlink trip cookie w k = elim (Option-cases (session_of trip cookie)) [
    | inl e ↦ rw (e, unlink) k
    | inr (addr, e) ↦ elim (Bool-cases trip.write_ok) [
      | inl f ↦ rw (e, unlink, f) (unlink-IsCoexistent env.decode58 addr w.users k)
      | inr f ↦ rw (e, unlink, f) k
    ]
  ]

  Kept-nonce :
      (trip : Trip) (drawn : Str) (w : World) → Kept env w → Kept env (nonce trip drawn w).1
  unfolding nonce
  Kept-nonce trip drawn w k = elim (Bool-cases trip.write_ok) [ inl e ↦ rw e k | inr e ↦ rw e k ]

  module _ (v : IsCrypto env.crypto) (z : RefusesZero env.decode58) where
    Kept-handle :
        (trip : Trip) (e : Event) (w : World) → Kept env w → Kept env (handle env trip e w).1
    unfolding handle
    Kept-handle trip (on_nonce drawn) w k = Kept-nonce trip drawn w k
    Kept-handle trip (on_verify req) w k = Kept-verify env v z trip req w k
    Kept-handle trip (on_verify_solana req) w k = Kept-verify_solana env trip req w k
    Kept-handle trip (on_link cookie req) w k = Kept-link trip cookie req w k
    Kept-handle trip (on_unlink cookie) w k = Kept-unlink trip cookie w k

    -- If a hash has 32 bytes, the hexadecimal codec writes two lower-case digits for a byte and
    -- base58 refuses texts with a `0`, every sequence of requests handled one at a time (nonces,
    -- both logins, linking, unlinking), whatever fails outside, keeps the rule that a wallet
    -- linked to an account has no account of its own, and that it is base58.
    pub run-IsCoexistent :
        (ticks : List (Trip × Event)) (w : World)
        → IsCoexistent env.decode58 w.users
        → IsCoexistent env.decode58 (run env ticks w).users
    unfolding run
    run-IsCoexistent [] w k = k
    run-IsCoexistent ((trip, e) ∷ ticks) w k =
        run-IsCoexistent ticks (handle env trip e w).1 (Kept-handle trip e w k)
