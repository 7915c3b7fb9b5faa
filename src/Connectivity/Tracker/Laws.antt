-- ===== src/Connectivity/Tracker/Laws.antt =====
-- internal/connectivity/tracker.go: the invariant of the tracker, and what opens and closes an
-- outage.
use i_pulse.Base.{ℕ, ℤ, ◌+◌, ◌≤◌, ◌<◌, ◌≡◌, ◌↔◌, ◌⊎◌, Bool, true, false, List, [], ◌∷◌, arith}
use i_pulse.Connectivity.Tracker.{Tracker, stay, begin, end, new_tracker, observe, run}

-- What holds between two health checks.
pub record IsSound (t : Tracker) : Type 0 where
  pub opens_late : 1 ≤ t.failures_to_open
  pub closes_late : 1 ≤ t.successes_to_close
  pub one_streak : (t.consecutive_fail ≡ 0) ⊎ (t.consecutive_ok ≡ 0)
  pub quiet_below : t.is_open ≡ false → t.consecutive_fail < t.failures_to_open
  pub busy_below : t.is_open ≡ true → t.consecutive_ok < t.successes_to_close

pub new_tracker-IsSound : (f s : ℤ) → IsSound (new_tracker f s)
unfolding new_tracker
new_tracker-IsSound f s = ground arith

pub observe-IsSound : (t : Tracker) (ok : Bool) (now : ℕ) → IsSound t → IsSound (observe t ok now).0
unfolding observe
observe-IsSound t true now v = ground arith
observe-IsSound t false now v = ground arith

run-IsSound : (t : Tracker) (h : List (Bool × ℕ)) → IsSound t → IsSound (run t h)
unfolding run
run-IsSound t [] v = v
run-IsSound t ((ok, now) ∷ h) v = run-IsSound (observe t ok now).0 h (observe-IsSound t ok now v)

-- Whatever the configured numbers and whatever the health checks, the thresholds are at least 1,
-- at most one streak is running, a closed tracker has seen fewer failures in a row than open an
-- outage, and an open one fewer successes in a row than close it.
pub run-new_tracker-IsSound : (f s : ℤ) (h : List (Bool × ℕ)) → IsSound (run (new_tracker f s) h)
run-new_tracker-IsSound f s h = run-IsSound (new_tracker f s) h (new_tracker-IsSound f s)

-- When a check changes the state: it opens an outage exactly when it fails on a closed tracker as
-- the last of the configured run of failures, it closes one exactly when it succeeds on an open
-- tracker as the last of the configured run of successes, and the open flag follows the
-- transition.
pub observe-transition_iff :
    (t : Tracker) (ok : Bool) (now : ℕ)
    → IsSound t
    → (((observe t ok now).1 ≡ begin)
        ↔ ((ok ≡ false) × (t.is_open ≡ false) × (t.consecutive_fail + 1 ≡ t.failures_to_open)))
      × (((observe t ok now).1 ≡ end)
          ↔ ((ok ≡ true) × (t.is_open ≡ true) × (t.consecutive_ok + 1 ≡ t.successes_to_close)))
      × ((observe t ok now).1 ≡ begin
          → ((observe t ok now).0.is_open ≡ true) × ((observe t ok now).0.opened_at ≡ now))
      × ((observe t ok now).1 ≡ end → (observe t ok now).0.is_open ≡ false)
      × ((observe t ok now).1 ≡ stay
          → ((observe t ok now).0.is_open ≡ t.is_open)
            × ((observe t ok now).0.opened_at ≡ t.opened_at))
unfolding observe
observe-transition_iff t true now v = ground arith
observe-transition_iff t false now v = ground arith
