-- ===== src/Traffic.antt =====
-- internal/traffic: the rolling volume window and the record of occurrences (window.go), iPulse's
-- own transfers (selftraffic.go) and the readings of the interfaces (sampler.go).
mod Examples
mod SamplerExamples
pub mod Window
pub mod SelfTraffic
pub mod Sampler
