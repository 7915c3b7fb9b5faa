-- ===== src/Anomaly.antt =====
-- internal/anomaly: the gate that every detector shares (gate.go).
mod Examples
mod RuleExamples
pub mod Gate
pub mod Sustained
pub mod Rules
pub mod QuietHours
