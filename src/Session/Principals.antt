-- ===== src/Session/Principals.antt =====
-- The two kinds of principal of user_worker/src/session.rs.
use lets_embed.Prelude.{ℕ, ◌≡◌, refl, true, false, any, Option, none, List, [], ◌∷◌, arith, ◌==◌}
use lets_embed.Prelude.Text.{Str, strip_prefix}
use lets_embed.Session.{is_eth_address, is_sol_principal}

-- A text with a `0` is not base58.
abbrev pub RefusesZero : (Str → Option (List ℕ)) → Type 0
RefusesZero decode58 = (s : Str) → any (λ c. c == b'0') s ≡ true → decode58 s ≡ none

pub eth_head : (s : Str) → is_eth_address s ≡ true → any (λ c. c == b'0') s ≡ true
unfolding is_eth_address strip_prefix
eth_head [] h = absurd (ground arith)
eth_head (c ∷ s) h = ground arith

-- If base58 refuses texts with a `0`, an Ethereum principal is not a Solana principal.
pub is_sol_principal_eth :
    (decode58 : Str → Option (List ℕ))
    → RefusesZero decode58
    → (s : Str) → is_eth_address s ≡ true
    → is_sol_principal decode58 s ≡ false
unfolding is_sol_principal
is_sol_principal_eth decode58 v s h = rw (v s (eth_head s h), is_sol_principal) refl
