-- ===== src/Security.antt =====
-- The guards of the API: src/acip/core/security.
pub mod RateLimit
pub mod Ssrf
pub mod Files
mod Examples
