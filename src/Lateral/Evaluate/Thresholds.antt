-- ===== src/Lateral/Evaluate/Thresholds.antt =====
-- internal/lateral/detector.go: what a finding has crossed.
use i_pulse.Base.{string_eq}
use i_pulse.Lateral.Tally.{Tally}
