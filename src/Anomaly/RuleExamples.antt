-- ===== src/Anomaly/RuleExamples.antt =====
-- The rules at concrete inputs, with whole numbers in place of float64.
use i_pulse.Base.{ℕ, pos, ltb, ◌+◌, ◌-◌, ◌%◌, ◌≡◌, refl, true, false, List, [], ◌∷◌, some, arith}
use i_pulse.Anomaly.Gate.{Gate}
use i_pulse.Anomaly.Sustained.{
  SustainedRule, SustainedFinding, at_rest, observe_sample, drop_below, stay_above, take_sample,
  waits, average,
}
use i_pulse.Anomaly.Sustained.Streaks.{run}
use i_pulse.Anomaly.Sustained.Telling.{findings, WellTold, findings_lem, observe_sample-Tells}
use i_pulse.Anomaly.QuietHours.{contains, contains_on_clock}
use i_pulse.Anomaly.Rules.{DeviationRule, ZScoreRule, above}
use i_pulse.Baseline.Engine.{Baseline, fresh_baseline}
use i_pulse.Fixtures.{whole}

-- An upload of at least 10 for 20, told once.
abbrev upload : SustainedRule ℕ
upload = record { metric = "upload"; floor = 10; min_duration = pos 20; repeat = pos 0; state = [] }

-- Two high samples, the newest first.
abbrev rising : List (ℕ × ℕ)
rising = (15, 130) ∷ (12, 100) ∷ []

abbrev start_told : SustainedFinding ℕ
start_told = record {
  metric = "upload";
  dimension = "eth0";
  average = 13;
  peak = 15;
  duration = pos 30;
  samples = 2;
  ended = false;
}

start_told_so :
    (observe_sample upload "eth0" (run upload "eth0" ((12, 100) ∷ [])) 15 130).1 ≡ some start_told
unfolding observe_sample run drop_below stay_above take_sample waits average
start_told_so = refl

observe_sample-Tells_example : start_told.ended ≡ false
observe_sample-Tells_example =
    (observe_sample-Tells upload "eth0" ((12, 100) ∷ []) 15 130 start_told
      (omega arith, (omega arith, tt)) start_told_so).0

findings_lem_example :
    WellTold upload "eth0" false
      (findings upload "eth0" at_rest ((12, 100) ∷ (15, 130) ∷ (3, 140) ∷ []))
findings_lem_example =
    findings_lem upload "eth0" ((12, 100) ∷ (15, 130) ∷ (3, 140) ∷ [])
      (omega arith, (omega arith, (omega arith, tt)))

contains_on_clock_example :
    contains (record { start = pos 22; end = pos 6 }) 3
    ≡ ltb ((3 + 24 - 22) % 24) ((6 + 24 - 22) % 24)
contains_on_clock_example = contains_on_clock 22 6 3 (omega arith) (omega arith) (omega arith)

abbrev slow : DeviationRule ℕ
slow = record {
  metric = "latency";
  direction = above;
  threshold_percent = 50;
  min_absolute = 20;
  use_median = true;
}

abbrev spike : ZScoreRule ℕ
spike = record { metric = "traffic"; threshold = 4; min_absolute = 20; direction = above }

abbrev usual : Baseline ℕ
usual =
    record (fresh_baseline (record { metric = "latency"; dimension = "dns"; bucket = "all" }) 10 10
      5) { samples = 40; mean = 10; median = 10; mad = 1; established = true }

abbrev eager : Gate
eager = record { persistence = 1; recovery_persistence = 1; cooldown = pos 0; states = [] }

-- A breach, a baseline that is of no use, and a return to normal.
abbrev probes : List (Baseline ℕ × ℕ × ℕ)
probes = (usual, 40, 100) ∷ (record usual { samples = 0 }, 40, 110) ∷ (usual, 10, 120) ∷ []
