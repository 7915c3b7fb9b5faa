-- ===== src/Agent/Scheduler/Ending.antt =====
-- internal/agent/scheduler.go: when the goroutine of a task returns.
use i_pulse.Base.{
  ℕ, ℤ, pos, leb_ℤ, ◌+ℤ◌, ◌≡◌, refl, Bool, true, false, ◌&&◌, ◌||◌, List, [], ◌∷◌, String, Option,
  none, some, Bool-cases, not, inl, inr, if◌then◌else◌, any,
}
use i_pulse.Agent.Scheduler.{
  Task, TaskStat, Loop, Received, cancelled, requested, fired, execute, run_loop, begin_loop,
  first_delay,
}

-- What ends the goroutine; `once` for a task that has a timer and no interval.
abbrev pub ends : Bool → Received → Bool
ends once cancelled = true
ends once (requested now o d) = false
ends once (fired now o d spread after) = once

module _ {W : Type 0} (describe : String → String) (t : Task W) where
  stays_stopped :
      (rs : List Received) (st : TaskStat) (timer : Option ℤ)
      → let l : Loop = record { stat = st; timer = timer; stopped = true } in
        (run_loop describe t l rs).stopped ≡ true
  unfolding run_loop
  stays_stopped [] st timer = refl
  stays_stopped (r ∷ rs) st timer = stays_stopped rs st timer

  untimed :
      (rs : List Received) (st : TaskStat)
      → let l : Loop = record { stat = st; timer = none; stopped = false } in
        (run_loop describe t l rs).stopped ≡ any (ends false) rs
  unfolding run_loop
  untimed [] st = refl
  untimed (cancelled ∷ rs) st = stays_stopped rs st none
  untimed (requested now o d ∷ rs) st = untimed rs (execute describe t true now o d st).0
  untimed (fired now o d spread after ∷ rs) st = untimed rs st

  after_timer :
      (once : Bool) (rs : List Received) (st : TaskStat) (again : Loop) (later : Bool)
      → (run_loop describe t again rs).stopped ≡ later
      → let done : Loop = record { stat = st; timer = none; stopped = true } in
        (run_loop describe t (if once then done else again) rs).stopped ≡ (once || later)
  after_timer true rs st again later h = stays_stopped rs st none
  after_timer false rs st again later h = h

  timed :
      (rs : List Received) (st : TaskStat) (at : ℤ)
      → let l : Loop = record { stat = st; timer = some at; stopped = false } in
        (run_loop describe t l rs).stopped ≡ any (ends (leb_ℤ t.interval (pos 0))) rs
  unfolding run_loop
  timed [] st at = refl
  timed (cancelled ∷ rs) st at = stays_stopped rs st (some at)
  timed (requested now o d ∷ rs) st at = timed rs (execute describe t true now o d st).0 at
  timed (fired now o d spread after ∷ rs) st at =
      let st1 = (execute describe t false now o d st).0 in
      let next = pos after +ℤ (t.interval +ℤ spread) in
      let again : Loop = record {
        stat = record st1 { next_run = next };
        timer = some next;
        stopped = false;
      } in
      after_timer (leb_ℤ t.interval (pos 0)) rs st1 again (any (ends (leb_ℤ t.interval (pos 0))) rs)
        (timed rs (record st1 { next_run = next }) next)

  -- The goroutine of a task returns when and only when it receives the end of the agent or, unless the
  -- task is only run by hand, the first firing of the timer of a task without a positive interval; so
  -- a manual request never ends it, and with a positive interval only the end of the agent does.
  pub begin_loop-ends :
      (rs : List Received) (now : ℕ) (spread : ℤ) (st : TaskStat)
      → (run_loop describe t (begin_loop describe t now spread st) rs).stopped
        ≡ any (ends (not t.manual_only && leb_ℤ t.interval (pos 0))) rs
  unfolding begin_loop
  begin_loop-ends rs now spread st =
      let at = pos now +ℤ first_delay t spread in
      elim (Bool-cases t.manual_only) [
        | inl by_hand ↦ simp by_hand (untimed rs st)
        | inr scheduled ↦ simp scheduled (timed rs (record st { next_run = at }) at)
      ]
