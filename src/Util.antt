-- ===== src/Util.antt =====
-- internal/util: the statistics (stats.go) and the glob patterns (addr.go).
mod Examples
pub mod Stats
pub mod Glob
