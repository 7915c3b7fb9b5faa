-- ===== src/Correlation.antt =====
-- internal/correlation: the sliding window of signals and the view of it that rules are written
-- against (window.go), and the engine that evaluates the rules (engine.go).
mod Examples
pub mod Window
pub mod View
pub mod Engine
