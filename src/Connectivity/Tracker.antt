-- ===== src/Connectivity/Tracker.antt =====
-- internal/connectivity/tracker.go: the outage tracker. A method on `*Tracker` returns the new
-- record. Instants are nanoseconds since Go's zero time, which is 0. The streak counters grow by
-- one with each health check and are not wrapped.
pub mod Laws
pub mod History
use i_pulse.Base.{
  ℕ, ℤ, pos, ltb_ℤ, pos_part, suc, Bool, true, false, not, ◌&&◌, List, [], ◌∷◌, leb, if◌then◌else◌,
  ◌+◌, Option, none, some,
}
use i_pulse.Connectivity.Evidence.{Classification}

pub data Transition : Type 0 where
  stay begin end : Transition

pub record Tracker : Type 0 where
  pub failures_to_open : ℕ
  pub successes_to_close : ℕ
  pub consecutive_fail : ℕ
  pub consecutive_ok : ℕ
  pub is_open : Bool
  pub opened_at : ℕ
  pub last_classification : Option Classification

-- Values below 1 are raised to 1.
unfoldable pub at_least_one : ℤ → ℕ
at_least_one n = if ltb_ℤ n (pos 1) then 1 else pos_part n

-- No classification has been recorded yet: Go's empty string.
unfoldable pub new_tracker : ℤ → ℤ → Tracker
unfolding at_least_one
new_tracker f s = record {
  failures_to_open = at_least_one f;
  successes_to_close = at_least_one s;
  consecutive_fail = 0;
  consecutive_ok = 0;
  is_open = false;
  opened_at = 0;
  last_classification = none;
}

record_ok : Tracker → Tracker × Transition
record_ok t =
    let u = record t { consecutive_fail = 0; consecutive_ok = t.consecutive_ok + 1 } in
    if u.is_open && leb u.successes_to_close u.consecutive_ok
    then (record u { is_open = false; consecutive_ok = 0 }, end)
    else (u, stay)

record_failure : Tracker → ℕ → Tracker × Transition
record_failure t now =
    let u = record t { consecutive_ok = 0; consecutive_fail = t.consecutive_fail + 1 } in
    if not u.is_open && leb u.failures_to_open u.consecutive_fail
    then (record u { is_open = true; opened_at = now }, begin)
    else (u, stay)

-- `Record`
unfoldable pub observe : Tracker → Bool → ℕ → Tracker × Transition
unfolding record_ok record_failure
observe t true now = record_ok t
observe t false now = record_failure t now

unfoldable pub set_classification : Tracker → Classification → Tracker
set_classification t c = record t { last_classification = some c }

unfoldable pub resume : Tracker → ℕ → Classification → Tracker
resume t opened class = record t {
  is_open = true;
  opened_at = opened;
  last_classification = some class;
  consecutive_fail = t.failures_to_open;
}

-- A sequence of health checks, each an outcome with its instant.
unfoldable pub run : Tracker → List (Bool × ℕ) → Tracker
run t [] = t
run t ((ok, now) ∷ rest) = run (observe t ok now).0 rest
