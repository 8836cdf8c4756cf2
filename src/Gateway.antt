-- ===== src/Gateway.antt =====
-- The gateway in front of the search service, gateway/src: the check of a Cloudflare Access token,
-- the filter of requests, and the caching of responses.
pub mod Jwt
pub mod Ingress
mod Tests
