-- ===== src/Api.antt =====
-- internal/api: what limits the requests of a client (api.go).
mod Examples
pub mod RateLimit
