-- ===== src/Admin.antt =====
-- The administration of users: user_worker/src/admin.rs, with the client of the account object in
-- user_worker/src/do_client.rs.
pub mod Access
pub mod Style
pub mod Templates
pub mod Page
pub mod Handlers
mod Tests
