-- ===== src/Login/Wallet.antt =====
-- `verify_solana` of user_worker/src/auth.rs, and `link` and `unlink` of
-- user_worker/src/solana_link.rs.
use lets_embed.Prelude.{
  Bool, false, not, ◌&&◌, Option, none, some, ◌∷◌, ◌++◌, length, ◌==◌, if◌then◌else◌,
}
use lets_embed.Prelude.Text.{Str, codes, str_eq, str_key}
use lets_embed.Session.{is_sol_principal, session_address}
use lets_embed.Login.Users.{UserRow, is_known, is_linked, owner_of, set_wallet}
use lets_embed.Login.World.{
  WalletReq, Env, Trip, World, Reply, failed, linked_to, done, internal_error, unless, take_nonce,
  enter,
}

unfoldable pub siws_challenge : Str → Str → Str
siws_challenge domain nonce =
    codes "Sign in to lets_embed with Solana"
    ++ (0xa ∷ (codes "Domain: " ++ (domain ++ (0xa ∷ (codes "Nonce: " ++ nonce)))))

unfoldable pub challenge_message : Str → Str → Str
challenge_message addr nonce =
    codes "Link Solana wallet to " ++ (addr ++ (0xa ∷ (codes "Nonce: " ++ nonce)))

abbrev pub owned_by_other : Str → Option UserRow → Bool
owned_by_other addr none = false
owned_by_other addr (some row) = not (str_eq row.address addr)

-- `link` once the signature is checked.
unfoldable pub link_wallet : Trip → Str → Str → World → Reply × World
link_wallet trip addr wallet w =
    if not trip.lookup_ok
    then (internal_error, w)
    else if is_known wallet w.users
    then (
      failed 409 (
          codes
            "this wallet already has its own account — log in with it directly instead of linking"),
      w,
    )
    else if not trip.owner_ok
    then (internal_error, w)
    else if owned_by_other addr (owner_of wallet w.users)
    then (failed 409 (codes "wallet already linked to another account"), w)
    else if not trip.write_ok
    then (
      (if trip.constraint
          then failed 409 (codes "wallet already linked to another account")
          else internal_error),
      w,
    )
    else (linked_to wallet, record w { users = set_wallet (some wallet) addr w.users })

module _ {ℓ} {Signature : Type ℓ} (env : Env Signature) where
  -- `verify_ed25519_b58`.
  unfoldable pub verify_ed25519_b58 : Str → Str → Str → Bool
  verify_ed25519_b58 solana_address signature message = elim (env.decode58 solana_address) [
    | none ↦ false
    | some pk ↦ length pk == 32 && env.valid_key pk && elim (env.decode58 signature) [
      | none ↦ false
      | some sig ↦ length sig == 64 && env.verify_strict pk message sig
    ]
  ]

  -- `verify_solana` once the signature is checked.
  unfoldable pub enter_wallet : Trip → Str → World → Reply × World
  enter_wallet trip addr w =
      if not trip.owner_ok
      then (internal_error, w)
      else if is_linked addr w.users
      then (
        failed 409 (codes "this wallet is linked to another account — unlink it there first"),
        w,
      )
      else enter env trip addr addr w

  unfoldable pub verify_solana : Trip → WalletReq → World → Reply × World
  verify_solana trip req w =
      if not (is_sol_principal env.decode58 req.solana_address)
      then (failed 400 (codes "invalid solana address"), w)
      else unless (take_nonce trip 401 req.nonce w) (λ w1.
        let login = enter_wallet trip req.solana_address w1 in
        if not (
          verify_ed25519_b58 req.solana_address req.signature
            (siws_challenge env.siwe_domain req.nonce))
        then (failed 401 (codes "signature verification failed"), w1)
        else login)

  unfoldable pub link : Trip → Option Str → WalletReq → World → Reply × World
  link trip cookie req w =
      elim (session_address env.decode58 env.lib cookie env.jwt_secret trip.now) [
        | none ↦ (failed 401 (codes "login required"), w)
        | some addr ↦ unless (take_nonce trip 400 req.nonce w) (λ w1.
            let linked = link_wallet trip addr req.solana_address w1 in
            if not (
              verify_ed25519_b58 req.solana_address req.signature
                (challenge_message addr req.nonce))
            then (failed 400 (codes "signature verification failed"), w1)
            else linked)
      ]

  unfoldable pub unlink : Trip → Option Str → World → Reply × World
  unlink trip cookie w =
      elim (session_address env.decode58 env.lib cookie env.jwt_secret trip.now) [
        | none ↦ (failed 401 (codes "login required"), w)
        | some addr ↦
            if trip.write_ok
            then (done, record w { users = set_wallet none addr w.users })
            else (internal_error, w)
      ]
