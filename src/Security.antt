-- ===== src/Security.antt =====
-- internal/security: what makes untrusted text safe to log (sanitize.go).
mod Examples
pub mod Sanitize
