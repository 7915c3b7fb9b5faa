-- ===== src/Lateral.antt =====
-- internal/lateral/detector.go: the detector of scans and sweeps of the local network. A valid host
-- is its text; an invalid one is `none`. Ports, process ids and instants are natural numbers.
mod Examples
pub mod State
pub mod Grade
pub mod Report
pub mod Observe
pub mod Tally
pub mod Evaluate
