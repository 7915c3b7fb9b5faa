-- ===== src/Connectivity/Tracker/History.antt =====
-- internal/connectivity/tracker.go: what holds over a whole history of health checks.
use i_pulse.Base.{
  refl, ap, ◌∙◌, ◌↔◌, length, ℕ, ℤ, suc, ◌+◌, ◌≤◌, ◌<◌, ◌≡◌, Bool, true, false, List, [], ◌∷◌,
  arith,
}
use i_pulse.Connectivity.Evidence.{Classification}
use i_pulse.Connectivity.Tracker.{
  Tracker, Transition, begin, end, new_tracker, observe, resume, run, at_least_one,
}
use i_pulse.Connectivity.Tracker.Laws.{observe-transition_iff, run-new_tracker-IsSound}

abbrev weight : Transition → Transition → ℕ
weight begin begin = 1
weight end end = 1
weight _ _ = 0

-- How often a history makes a transition.
pub count_of : Transition → Tracker → List (Bool × ℕ) → ℕ
count_of w t [] = 0
count_of w t ((ok, now) ∷ h) = weight w (observe t ok now).1 + count_of w (observe t ok now).0 h

abbrev pub flag : Bool → ℕ
flag true = 1
flag false = 0

balance-observe :
    (t : Tracker) (ok : Bool) (now : ℕ)
    → flag t.is_open + weight begin (observe t ok now).1
      ≡ flag (observe t ok now).0.is_open + weight end (observe t ok now).1
unfolding observe
balance-observe t true now = ground arith
balance-observe t false now = ground arith

-- Outages open and close in turn: over any history the outages that were open at its start and
-- those that it opens are, together, as many as those that it closes and the one left open.
pub open-close_balance :
    (t : Tracker) (h : List (Bool × ℕ))
    → flag t.is_open + count_of begin t h ≡ flag (run t h).is_open + count_of end t h
unfolding run count_of
open-close_balance t [] = omega arith
open-close_balance t ((ok, now) ∷ h) =
    omega (arith, balance-observe t ok now, open-close_balance (observe t ok now).0 h)

-- The failures at the end of a history, none of them followed by a success, counted on from
-- those before it.
pub failure_streak : ℕ → List (Bool × ℕ) → ℕ
failure_streak n [] = n
failure_streak n ((true, now) ∷ h) = failure_streak 0 h
failure_streak n ((false, now) ∷ h) = failure_streak (suc n) h

new_tracker_start :
    (f s : ℤ)
    → ((new_tracker f s).consecutive_fail ≡ 0)
      × ((new_tracker f s).failures_to_open ≡ at_least_one f)
      × ((new_tracker f s).successes_to_close ≡ at_least_one s)
unfolding new_tracker
new_tracker_start f s = (refl, refl, refl)

observe-ok_clears : (t : Tracker) (now : ℕ) → (observe t true now).0.consecutive_fail ≡ 0
unfolding observe
observe-ok_clears t now = ground arith

observe-failure_counts :
    (t : Tracker) (now : ℕ) → (observe t false now).0.consecutive_fail ≡ suc t.consecutive_fail
unfolding observe
observe-failure_counts t now = ground arith

consecutive_fail-run :
    (t : Tracker) (h : List (Bool × ℕ))
    → (run t h).consecutive_fail ≡ failure_streak t.consecutive_fail h
unfolding run failure_streak
consecutive_fail-run t [] = refl
consecutive_fail-run t ((true, now) ∷ h) =
    consecutive_fail-run (observe t true now).0 h
    ∙ ap (λ n. failure_streak n h) (observe-ok_clears t now)
consecutive_fail-run t ((false, now) ∷ h) =
    consecutive_fail-run (observe t false now).0 h
    ∙ ap (λ n. failure_streak n h) (observe-failure_counts t now)

observe-thresholds :
    (t : Tracker) (ok : Bool) (now : ℕ)
    → ((observe t ok now).0.failures_to_open ≡ t.failures_to_open)
      × ((observe t ok now).0.successes_to_close ≡ t.successes_to_close)
unfolding observe
observe-thresholds t true now = ground arith
observe-thresholds t false now = ground arith

run-thresholds :
    (t : Tracker) (h : List (Bool × ℕ))
    → ((run t h).failures_to_open ≡ t.failures_to_open)
      × ((run t h).successes_to_close ≡ t.successes_to_close)
unfolding run
run-thresholds t [] = (refl, refl)
run-thresholds t ((ok, now) ∷ h) =
    omega (arith, observe-thresholds t ok now, run-thresholds (observe t ok now).0 h)

-- After any history of a new tracker, a failing check opens an outage exactly when none is open
-- and the history ends with one failure less than the configured number (1 if that is below 1),
-- so no single success in between is overlooked.
pub opens_on_streak_iff :
    (f s : ℤ) (h : List (Bool × ℕ)) (now : ℕ)
    → let t = run (new_tracker f s) h in
      ((observe t false now).1 ≡ begin)
      ↔ ((t.is_open ≡ false) × (failure_streak 0 h + 1 ≡ at_least_one f))
opens_on_streak_iff f s h now =
    let t = run (new_tracker f s) h in
    let iff = (observe-transition_iff t false now (run-new_tracker-IsSound f s h)).0 in
    let start = new_tracker_start f s in
    let streak = consecutive_fail-run (new_tracker f s) h ∙ ap (λ n. failure_streak n h) start.0 in
    let same = run-thresholds (new_tracker f s) h in
    (
      λ b. let (_, closed, last) = iff.0 b in (closed, omega arith),
      λ b. iff.1 (refl, b.0, omega arith),
    )

-- Successful checks at the given instants.
abbrev pub oks : List ℕ → List (Bool × ℕ)
oks [] = []
oks (now ∷ ts) = (true, now) ∷ oks ts

observe-ok_open :
    (t : Tracker) (now : ℕ)
    → t.is_open ≡ true
    → t.consecutive_ok + 1 < t.successes_to_close
    → ((observe t true now).0.is_open ≡ true)
      × ((observe t true now).0.consecutive_ok ≡ t.consecutive_ok + 1)
unfolding observe
observe-ok_open t now o h = ground arith

stays_open :
    (t : Tracker) (ts : List ℕ)
    → t.is_open ≡ true
    → t.consecutive_ok + length ts < t.successes_to_close
    → ((run t (oks ts)).is_open ≡ true)
      × ((run t (oks ts)).consecutive_ok ≡ t.consecutive_ok + length ts)
unfolding run
stays_open t [] o h = (o, omega arith)
stays_open t (now ∷ ts) o h =
    let step = observe-ok_open t now o (omega arith) in
    let same = observe-thresholds t true now in
    let rest = stays_open (observe t true now).0 ts step.0 (omega arith) in (rest.0, omega arith)

observe-ok_closes_iff :
    (t : Tracker) (now : ℕ)
    → t.is_open ≡ true
    → ((observe t true now).1 ≡ end) ↔ (t.successes_to_close ≤ t.consecutive_ok + 1)
unfolding observe
observe-ok_closes_iff t now o = (λ h. ground arith, λ h. ground arith)

resume_start :
    (f s : ℤ) (opened : ℕ) (class : Classification)
    → ((resume (new_tracker f s) opened class).is_open ≡ true)
      × ((resume (new_tracker f s) opened class).consecutive_ok ≡ 0)
      × ((resume (new_tracker f s) opened class).successes_to_close ≡ at_least_one s)
unfolding resume new_tracker
resume_start f s opened class = (refl, refl, refl)

-- An outage that a new tracker adopts from the database is open, stays open through every run of
-- successes shorter than the configured number (1 if that is below 1), and after such a run the
-- next success closes it exactly when it completes that number.
pub resume_recovers :
    (f s : ℤ) (opened : ℕ) (class : Classification) (ts : List ℕ) (now : ℕ)
    → length ts < at_least_one s
    → let t = run (resume (new_tracker f s) opened class) (oks ts) in
      (t.is_open ≡ true) × (((observe t true now).1 ≡ end) ↔ (length ts + 1 ≡ at_least_one s))
resume_recovers f s opened class ts now h =
    let t = resume (new_tracker f s) opened class in
    let start = resume_start f s opened class in
    let still = stays_open t ts start.0 (omega arith) in
    let same = run-thresholds t (oks ts) in
    let closes = observe-ok_closes_iff (run t (oks ts)) now still.0 in
    (still.0, (λ e. let le = closes.0 e in omega arith, λ e. closes.1 (omega arith)))
