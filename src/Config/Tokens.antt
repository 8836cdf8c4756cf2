-- ===== src/Config/Tokens.antt =====
-- The payment-token registry (user_worker/src/config.rs).
use lets_embed.Prelude.{
  ℕ, Bool, true, false, Option, none, some, List, [], ◌∷◌, ◌&&◌, find, if◌then◌else◌,
}
use lets_embed.Prelude.Text.{Str, codes, str_eq}

pub data Chain : Type 0 where
  ethereum solana : Chain

abbrev pub chain_eq : Chain → Chain → Bool
chain_eq ethereum ethereum = true
chain_eq ethereum solana = false
chain_eq solana ethereum = false
chain_eq solana solana = true

-- `Chain::as_str`.
unfoldable pub as_str : Chain → Str
as_str ethereum = codes "ethereum"
as_str solana = codes "solana"

-- `Chain::parse`.
unfoldable pub parse : Str → Option Chain
parse s =
    if str_eq s (codes "ethereum")
    then some ethereum
    else if str_eq s (codes "solana")
    then some solana
    else none

pub record TokenSpec : Type 0 where
  pub chain : Chain
  pub symbol : Str
  pub decimals : ℕ
  -- `none` for the chain's native coin.
  pub contract : Option Str
  -- `none` for a stablecoin.
  pub feed : Option Str

abbrev pub feed_eth_usd : Str
feed_eth_usd = codes "0x5f4ec3df9cbd43714fe2740f5e3616155c5b8419"

abbrev pub feed_sol_usd : Str
feed_sol_usd = codes "0x4ffc43a60e009b551865a93d232e33fce9f01507"

abbrev token_spec : Chain → Str → ℕ → Option Str → Option Str → TokenSpec
token_spec chain symbol decimals contract feed = record {
  chain = chain;
  symbol = symbol;
  decimals = decimals;
  contract = contract;
  feed = feed;
}

unfoldable pub tokens : List TokenSpec
tokens =
    token_spec ethereum (codes "eth") 18 none (some feed_eth_usd)
    ∷ token_spec ethereum (codes "usdt") 6
        (some (codes "0xdac17f958d2ee523a2206206994597c13d831ec7")) none
    ∷ token_spec ethereum (codes "usdc") 6
        (some (codes "0xa0b86991c6218b36c1d19d4a2e9eb0ce3606eb48")) none
    ∷ token_spec solana (codes "sol") 9 none (some feed_sol_usd)
    ∷ token_spec solana (codes "usdt") 6
        (some (codes "Es9vMFrzaCERmJfrF4H2FYD4KCoNkY11McCe8BenwNYB")) none
    ∷ token_spec solana (codes "usdc") 6
        (some (codes "EPjFWdd5AufqSSqeM2qN1xzybapC8G4wEGGkZwyTDt1v")) none
    ∷ []

-- `config::token`.
unfoldable pub token : Chain → Str → Option TokenSpec
unfolding tokens
token chain symbol = find (λ t. chain_eq t.chain chain && str_eq t.symbol symbol) tokens
