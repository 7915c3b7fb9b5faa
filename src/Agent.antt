-- ===== src/Agent.antt =====
-- internal/agent: the scheduler of the periodic work (scheduler.go) and the queue of samples (bus.go).
mod Examples
mod BusExamples
pub mod Scheduler
pub mod Bus
