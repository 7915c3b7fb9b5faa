-- ===== src/Connectivity.antt =====
-- internal/connectivity: what the diagnostic ladder observed (classify.go, `Evidence`), its
-- conclusion (classify.go, `Classify` and the maps from a classification), and the tracker that
-- opens and closes outages (tracker.go).
pub mod Evidence
pub mod Classify
pub mod Tracker
mod Examples
