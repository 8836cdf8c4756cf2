-- ===== src/GatewayWorker.antt =====
-- The gateway worker, gateway_worker/src/lib.rs: it checks the session of a request, charges the
-- account for what it views or searches, and forwards the request.
pub mod Form
pub mod Proxy
pub mod Metering
mod Tests
