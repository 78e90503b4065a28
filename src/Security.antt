-- ===== src/Security.antt =====
-- relay/security.go: pairing keys, machine credentials, capability reports and rate limits.
pub mod Keys
pub mod Rotation
pub mod Policy
pub mod Limiter
pub mod LimiterBounds
pub mod Sanitize
pub mod SanitizeBounds
mod Tests
