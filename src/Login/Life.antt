-- ===== src/Login/Life.antt =====
-- The requests of user_worker/src/auth.rs and user_worker/src/solana_link.rs, one after another.
use lets_embed.Prelude.{Option, List, [], ◌∷◌}
use lets_embed.Prelude.Text.{Str}
use lets_embed.Login.World.{VerifyReq, WalletReq, Env, Trip, World, Reply, nonce}
use lets_embed.Login.Ethereum.{verify}
use lets_embed.Login.Wallet.{verify_solana, link, unlink}

-- A request, with the random text that `nonce` draws and the session cookie of `link` and `unlink`.
pub data Event : Type 0 where
  on_nonce : Str → Event
  on_verify : VerifyReq → Event
  on_verify_solana : WalletReq → Event
  on_link : Option Str → WalletReq → Event
  on_unlink : Option Str → Event

module _ {ℓ} {Signature : Type ℓ} (env : Env Signature) where
  unfoldable pub handle : Trip → Event → World → Reply × World
  handle trip (on_nonce drawn) w = nonce trip drawn w
  handle trip (on_verify req) w = verify env trip req w
  handle trip (on_verify_solana req) w = verify_solana env trip req w
  handle trip (on_link cookie req) w = link env trip cookie req w
  handle trip (on_unlink cookie) w = unlink env trip cookie w

  unfoldable pub run : List (Trip × Event) → World → World
  run [] w = w
  run ((trip, e) ∷ ticks) w = run ticks (handle trip e w).1
