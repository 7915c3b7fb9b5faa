-- ===== src/Anomaly/Examples.antt =====
-- Runs of the gate, and the theorems about it at concrete inputs.
use i_pulse.Base.{
  ℕ, pos, ◌+◌, ◌≡◌, ◌↔◌, refl, Bool, true, false, List, [], ◌∷◌, String, arith, string_eq,
}
use i_pulse.Anomaly.Gate.{
  Gate, GateState, cell, breach_cell, clear_cell, observe, prune, is_firing, state,
}
use i_pulse.Anomaly.Gate.Cell.{HasThresholds}
use i_pulse.Anomaly.Gate.Rows.{state_after, is_reported, absent_for, cell-state_after_iff}
use i_pulse.Anomaly.Gate.Traces.{run_cell, clears_at, blip_restarts_duration}
use i_pulse.Anomaly.Gate.Keys.{run, only, observe-run_independent, prune_safe}

abbrev plain_gate : Gate
plain_gate = record { persistence = 2; recovery_persistence = 2; cooldown = pos 0; states = [] }

plain_gate-HasThresholds : HasThresholds plain_gate
plain_gate-HasThresholds = record { breaches_needed = omega arith; clears_needed = omega arith }

-- Reported at 20, absent once at 25.
abbrev fading : List (Bool × ℕ)
fading = (false, 25) ∷ (true, 20) ∷ (true, 10) ∷ []

cell-state_after_iff_example :
    ((cell plain_gate (state_after plain_gate fading) false 30).1.recovered ≡ true) ↔ (
      (◌≡◌ {A = Bool} false false)
      × (is_reported plain_gate fading ≡ true)
      × (absent_for fading + 1 ≡ 2))
cell-state_after_iff_example =
    (cell-state_after_iff plain_gate fading false 30 plain_gate-HasThresholds).1

fading_recovers : (cell plain_gate (state_after plain_gate fading) false 30).1.recovered ≡ true
unfolding cell state_after breach_cell clear_cell
fading_recovers = refl

-- Two breaches, two clears.
abbrev episode : List (Bool × ℕ)
episode = (true, 10) ∷ (true, 20) ∷ (false, 30) ∷ (false, 40) ∷ []

-- Firing since 10, absent once at 25, present at 40, absent for good from 50.
abbrev firing_since : GateState
firing_since = record {
  breaches = 2;
  clears = 0;
  firing = true;
  first_breach = 10;
  last_fired = 20;
  fired_count = 1;
}

firing_since_recovers :
    (cell plain_gate
      (run_cell plain_gate
        (cell plain_gate (cell plain_gate firing_since false 25).0 true 40).0
        (clears_at (50 ∷ [])))
      false
      60).1.recovered
    ≡ true
unfolding cell breach_cell clear_cell run_cell
firing_since_recovers = refl

blip_restarts_duration_example :
    (cell plain_gate
      (run_cell plain_gate
        (cell plain_gate (cell plain_gate firing_since false 25).0 true 40).0
        (clears_at (50 ∷ [])))
      false
      60).1.duration
    ≡ pos 20
blip_restarts_duration_example =
    blip_restarts_duration plain_gate firing_since 25 40 60 (50 ∷ []) firing_since_recovers

abbrev two_keys : List (String × Bool × ℕ)
two_keys = ("latency", true, 10) ∷ ("loss", true, 11) ∷ ("latency", true, 20) ∷ []

observe-run_independent_example :
    (observe (run plain_gate two_keys) "loss" true 21).1
    ≡ (cell plain_gate
        (run_cell plain_gate (state plain_gate "loss") (only "loss" two_keys))
        true
        21).1
observe-run_independent_example = observe-run_independent plain_gate "loss" two_keys true 21

prune_safe_example :
    is_firing (prune (record plain_gate { states = ("loss", firing_since) ∷ [] }) 100) "loss"
    ≡ is_firing (record plain_gate { states = ("loss", firing_since) ∷ [] }) "loss"
prune_safe_example =
    (prune_safe (record plain_gate { states = ("loss", firing_since) ∷ [] }) 100 "loss").0
