-- ===== src/Login.antt =====
-- Logging in: the handlers of user_worker/src/auth.rs and user_worker/src/solana_link.rs, over the
-- nonces, the table of users and the account objects.
pub mod Users
pub mod World
pub mod Ethereum
pub mod Wallet
pub mod Life
pub mod Coexistence
pub mod Site
pub mod Sessions
mod Tests
