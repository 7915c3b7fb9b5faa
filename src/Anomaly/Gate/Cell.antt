-- ===== src/Anomaly/Gate/Cell.antt =====
-- internal/anomaly/gate.go: one key's condition, observation by observation.
use i_pulse.Base.{
  ℕ, ℤ, pos, negsuc, ◌≤ℤ◌, sub_ℕ, ◌+◌, ◌≤◌, ◌<◌, ◌≡◌, ◌↔◌, ◌⊎◌, Bool, true, false, arith,
}
use i_pulse.Anomaly.Gate.{Gate, GateState, empty_state, new_gate, cell, breach_cell, clear_cell}

-- The thresholds are at least 1.
pub record HasThresholds (g : Gate) : Type 0 where
  pub breaches_needed : 1 ≤ g.persistence
  pub clears_needed : 1 ≤ g.recovery_persistence

-- What holds of a key's state between two observations.
pub record IsSound (g : Gate) (st : GateState) : Type 0 where
  pub one_streak : (st.breaches ≡ 0) ⊎ (st.clears ≡ 0)
  pub quiet_below : st.firing ≡ false → st.breaches < g.persistence
  pub firing_below : st.firing ≡ true → st.clears < g.recovery_persistence
  pub firing_counted : st.firing ≡ true → 1 ≤ st.fired_count

pub new_gate-HasThresholds : (p r c : ℤ) → HasThresholds (new_gate p r c)
unfolding new_gate
new_gate-HasThresholds p r c = ground arith

pub empty_state-IsSound : (g : Gate) → HasThresholds g → IsSound g empty_state
empty_state-IsSound g v = ground arith

breach_cell-IsSound :
    (g : Gate) (st : GateState) (now : ℕ)
    → HasThresholds g
    → IsSound g st
    → IsSound g (breach_cell g st now).0
unfolding breach_cell
breach_cell-IsSound g st now t v = ground arith

clear_cell-IsSound :
    (g : Gate) (st : GateState) (now : ℕ)
    → HasThresholds g
    → IsSound g st
    → IsSound g (clear_cell g st now).0
unfolding clear_cell
clear_cell-IsSound g st now t v = ground arith

-- Every observation keeps a key's state sound, if the thresholds of the gate are at least 1: one of
-- the two streaks is 0, a condition that is not firing has fewer breaches than it needs, and one that
-- is firing has fewer clears than it needs and has been reported.
pub cell-IsSound :
    (g : Gate) (st : GateState) (breached : Bool) (now : ℕ)
    → HasThresholds g
    → IsSound g st
    → IsSound g (cell g st breached now).0
unfolding cell
cell-IsSound g st true now t v = breach_cell-IsSound g st now t v
cell-IsSound g st false now t v = clear_cell-IsSound g st now t v

-- A firing condition may be reported again: the cooldown is negative, or it is positive and has
-- passed since the last report. With a cooldown of 0 it is never reported again.
abbrev pub CooledDown : Gate → GateState → ℕ → Type 0
CooledDown g st now =
    (g.cooldown ≤ℤ negsuc 0) ⊎ ((pos 1 ≤ℤ g.cooldown) × (g.cooldown ≤ℤ sub_ℕ now st.last_fired))

-- The decision of a sound state, by its counters.
pub cell-decision_iff :
    (g : Gate) (st : GateState) (breached : Bool) (now : ℕ)
    → IsSound g st
    → (((cell g st breached now).1.fire ≡ true) ↔ (
        (breached ≡ true)
        × (g.persistence ≤ st.breaches + 1)
        × ((st.firing ≡ false) ⊎ CooledDown g st now)))
      × (((cell g st breached now).1.recovered ≡ true)
          ↔ ((breached ≡ false) × (st.firing ≡ true) × (st.clears + 1 ≡ g.recovery_persistence)))
      × ((cell g st breached now).0.firing ≡ (cell g st breached now).1.is_firing)
unfolding cell breach_cell clear_cell
cell-decision_iff g st true now v = ground arith
cell-decision_iff g st false now v = ground arith
