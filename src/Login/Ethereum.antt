-- ===== src/Login/Ethereum.antt =====
-- `verify` of user_worker/src/auth.rs: the login with a sign-in message.
use lets_embed.Prelude.{ℕ, ◌-◌, not, Option, none, some, ◌++◌, leb, ltb, ◌==◌, if◌then◌else◌}
use Prim.Native.String.{String}
use lets_embed.Prelude.Text.{Str, codes, str_eq, str_key, to_lowercase}
use lets_embed.Prelude.Results.{ok, err}
use lets_embed.Config.{siwe_max_age_secs}
use lets_embed.Siwe.Message.{SiweMessage, parse_siwe}
use lets_embed.Siwe.Rfc3339.{parse_rfc3339_epoch}
use lets_embed.Siwe.Address.{recover_address, to_checksum}
use lets_embed.Login.World.{VerifyReq, Env, Trip, World, Reply, failed, unless, take_nonce, enter}

module _ {ℓ} {Signature : Type ℓ} (env : Env Signature) where
  -- The checks of `verify` on the message itself: what it answers, if they fail.
  abbrev unauthorized : String → Option Reply
  unauthorized msg = some (failed 401 (codes msg))

  abbrev distance : ℕ → ℕ → ℕ
  distance a b = if leb b a then a - b else b - a

  unfoldable pub expiration_reply : ℕ → Option Str → Option Reply
  expiration_reply now none = none
  expiration_reply now (some t) = elim (parse_rfc3339_epoch t) [
    | none ↦ unauthorized "invalid expiration timestamp"
    | some exp ↦ if leb exp now then unauthorized "message expired" else none
  ]

  unfoldable pub message_reply : ℕ → SiweMessage → Option Reply
  message_reply now msg =
      if not (str_eq msg.domain env.siwe_domain)
      then unauthorized "domain mismatch"
      else if not (str_eq msg.version (codes "1"))
      then unauthorized "unsupported version"
      else if not (msg.chain_id == env.chain_id)
      then unauthorized "chain id mismatch"
      else elim (parse_rfc3339_epoch msg.issued_at) [
        | none ↦ unauthorized "invalid issued-at timestamp"
        | some iat ↦
            if ltb siwe_max_age_secs (distance now iat)
            then unauthorized "message issued-at out of range"
            else expiration_reply now msg.expiration_time
      ]

  -- `verify` once the nonce is taken.
  unfoldable pub verify_signer : Trip → VerifyReq → SiweMessage → World → Reply × World
  verify_signer trip req msg w = elim (recover_address env.crypto req.message req.signature) [
    | err e ↦ (failed 401 e, w)
    | ok addr ↦
        if not (str_eq addr (to_lowercase msg.address))
        then (failed 401 (codes "signature does not match address"), w)
        else enter env trip addr (to_checksum env.crypto.keccak256 addr) w
  ]

  unfoldable pub verify : Trip → VerifyReq → World → Reply × World
  verify trip req w = elim (parse_siwe req.message) [
    | err e ↦ (failed 400 (codes "siwe parse error: " ++ e), w)
    | ok msg ↦
        unless (message_reply trip.now msg, w)
          (λ w0. unless (take_nonce trip 401 msg.nonce w0) (λ w1. verify_signer trip req msg w1))
  ]
