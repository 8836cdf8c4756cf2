-- ===== src/Account.antt =====
-- The per-user Durable Object `UserAccount` (user_worker/src/account_do.rs).
pub mod Wire
pub mod Decide
pub mod Storage
pub mod Status
pub mod Charge
pub mod Credit
pub mod Plans
pub mod Object
pub mod Fetch
pub mod Solvent
pub mod Memory
pub mod Quota
pub mod Report
pub mod Lapse
pub mod Hazards
mod Tests
