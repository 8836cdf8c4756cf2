-- ===== src/Login/Coexistence.antt =====
-- A Solana wallet is an account of its own or linked to an account, never both: the rule that
-- user_worker/src/auth.rs and user_worker/src/solana_link.rs keep between them.
pub mod Table
pub mod Kept
pub mod Run
