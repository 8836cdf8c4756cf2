-- ===== src/Siwe.antt =====
-- The sign-in messages of user_worker/src/siwe.rs: their text, their timestamps and their signers.
pub mod Message
pub mod Rfc3339
pub mod Address
pub mod Samples
mod Tests
