-- ===== src/Admin/Handlers/Gated.antt =====
-- No handler of user_worker/src/admin.rs works for anyone but an approver.
use lets_embed.Prelude.{◌≡◌, refl, ◌⊎◌, inl, inr, Option, none, some}
use lets_embed.Prelude.Text.{Str}
use lets_embed.Admin.Access.{require_approver}
use lets_embed.Admin.Access.Vouched.{IsVouched, require_approver-IsVouched}
use lets_embed.Admin.Handlers.{
  Env, World, Answer, Request, to_page, to_credit, to_ban, forbidden, show_page, give_credit,
  set_ban, behind_gate, admin_page, credit, ban, serve,
}

-- The refusal, which leaves users and accounts as they are.
pub record IsForbidden (w : World) (r : Answer × World) : Type 0 where
  pub answer : r.0 ≡ forbidden
  pub users : r.1.users ≡ w.users
  pub accounts : r.1.accounts ≡ w.accounts

module _ (env : Env) where
  abbrev IsGated : World → Answer × World → Type 0
  IsGated w r = ((email : Str) × IsVouched env.gate env.now env.token w.kv email) ⊎ IsForbidden w r

  behind_gate-IsGated :
      (handler : Str → World → Answer × World) (w : World) (r : Option Str × Option Str)
      → ((email : Str) → r.0 ≡ some email → IsVouched env.gate env.now env.token w.kv email)
      → IsGated w (behind_gate env handler w r)
  behind_gate-IsGated handler w (none, kv) h =
      inr (record { answer = refl; users = refl; accounts = refl })
  behind_gate-IsGated handler w (some email, kv) h = inl (email, h email refl)

  require_approver-IsGated :
      (handler : Str → World → Answer × World) (w : World)
      → IsGated w (behind_gate env handler w (require_approver env.gate env.now env.token w.kv))
  require_approver-IsGated handler w =
      behind_gate-IsGated handler w (require_approver env.gate env.now env.token w.kv)
        (require_approver-IsVouched env.gate env.now env.token w.kv)

  -- A request of the administration is either that of an approver, whose token has three parts,
  -- the algorithm RS256, a signature by a key of the team's certificates with its name (from the
  -- store or fetched), and claims that have not run out, have begun, and name the team, the
  -- application and the e-mail address, or it is answered 403 and changes no user and no account.
  pub serve-IsGated : (req : Request) (w : World) → IsGated w (serve env req w)
  unfolding serve admin_page credit ban
  serve-IsGated (to_page q) w = require_approver-IsGated (λ email. show_page env email q) w
  serve-IsGated (to_credit form) w = require_approver-IsGated (λ email. give_credit env form) w
  serve-IsGated (to_ban form) w = require_approver-IsGated (λ email. set_ban env form) w
