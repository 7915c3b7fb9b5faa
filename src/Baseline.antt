-- ===== src/Baseline.antt =====
-- internal/baseline: the adaptive baselines (engine.go).
mod Examples
pub mod Engine
