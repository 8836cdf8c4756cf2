-- ===== src/Payments.antt =====
-- Crypto top-ups (user_worker/src/payments.rs).
pub mod Chain
pub mod Json
pub mod Solana
pub mod Flow
pub mod Genuine
pub mod Transfers
pub mod Lock
pub mod Once
pub mod Credited
pub mod Retry
pub mod Handlers
pub mod Subscription
mod Tests
