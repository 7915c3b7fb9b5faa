-- ===== src/Lateral/Grade/Scores.antt =====
-- internal/lateral/detector.go: what the grades mean.
use i_pulse.Base.{ℕ, ◌+◌, ◌*◌, ◌≤◌, ◌<◌, ◌≡◌, ◌⊎◌, Bool, true, arith}
use i_pulse.Lateral.State.{medium, high}
use i_pulse.Lateral.Grade.{confidence_for}

-- The highest grade is never given without a failure, however much was observed, and is given only
-- if the failures are exactly as many as what was observed or that is at least twice the threshold.
pub confidence_for-high :
    (observed threshold failed : ℕ) (sequential : Bool)
    → confidence_for observed threshold failed sequential ≡ high
    → (0 < failed) × ((failed ≡ observed) ⊎ (threshold * 2 ≤ observed))
unfolding confidence_for
confidence_for-high observed threshold failed sequential h = ground arith

-- More failures can lower the grade: for a sequential finding of something that is below twice the
-- threshold, the grade is high when the failures are exactly as many as what was observed, and medium
-- when there is any failure more.
pub more_failures_lower :
    (observed threshold extra : ℕ)
    → 0 < observed
    → observed < threshold * 2
    → (confidence_for observed threshold observed true ≡ high)
      × (confidence_for observed threshold (observed + 1 + extra) true ≡ medium)
unfolding confidence_for
more_failures_lower observed threshold extra some_seen small = (ground arith, ground arith)
