-- ===== src/Agent/Scheduler/History.antt =====
-- internal/agent/scheduler.go: the statistics of a task over any sequence of what its goroutine receives.
use mathlib.Core.Path.{subst}
use i_pulse.Base.{
  ◌+ℤ◌, ℕ, ℤ, pos, leb_ℤ, ◌+◌, ◌≤◌, ◌≡◌, ◌≢◌, refl, ap, sym, ◌∙◌, Bool, true, false, List, [], ◌∷◌,
  ◌++◌, String, Option, none, some, arith, Bool-cases, Option-cases, inl, inr, if◌then◌else◌,
  string_eq, length,
}
use i_pulse.Agent.Scheduler.{
  other, Notice, recovery, task_skipped, collector_error, Task, TaskStat, Fault, Outcome, Loop,
  Received, cancelled, requested, fired, overran, fault_of, execute, run_loop, consecutive_failures,
}

-- One execution: whether it was requested by hand, its outcome and its duration.
abbrev pub Execution : Type 0
Execution = Bool × Outcome × ℤ

abbrev pub is_some {ℓ} : {A : Type ℓ} → Option A → Bool
is_some none = false
is_some (some a) = true

abbrev pub bit : Bool → ℕ
bit false = 0
bit true = 1

module _ {W : Type 0} (describe : String → String) (t : Task W) where
  -- The executions that a goroutine makes of what it receives. Without a timer the timer does not
  -- fire, and a task without an interval ends with its first scheduled execution.
  unfoldable pub executions : Bool → Bool → List Received → List Execution
  executions timed true rs = []
  executions timed false [] = []
  executions timed false (cancelled ∷ rs) = []
  executions timed false (requested now o d ∷ rs) = (true, o, d) ∷ executions timed false rs
  executions false false (fired now o d spread after ∷ rs) = executions false false rs
  executions true false (fired now o d spread after ∷ rs) =
      (false, o, d) ∷ executions true (leb_ℤ t.interval (pos 0)) rs

  -- How many of them failed, and how many scheduled ones took longer than the interval.
  unfoldable pub failed : List Execution → ℕ
  failed [] = 0
  failed (e ∷ es) = bit (is_some (fault_of describe e.1)) + failed es

  unfoldable pub late : List Execution → ℕ
  late [] = 0
  late (e ∷ es) = bit (overran t e.0 e.2) + late es

  execute-idle :
      (manual : Bool) (now : ℕ) (o : Outcome) (d : ℤ) (st : TaskStat)
      → st.running ≡ false
      → let st' = (execute describe t manual now o d st).0 in
        (st'.running ≡ false)
        × (st'.runs ≡ st.runs + 1)
        × (st'.failures ≡ st.failures + bit (is_some (fault_of describe o)))
        × (st'.skips ≡ st.skips + bit (overran t manual d))
  unfolding execute
  execute-idle manual now o d st idle = elim (Option-cases (fault_of describe o)) [
    | inl fine ↦ elim (Bool-cases (overran t manual d)) [
      | inl over ↦ rw (idle, fine, over) (refl, refl, ground arith, refl)
      | inr in_time ↦ rw (idle, fine, in_time) (refl, refl, ground arith, ground arith)
    ]
    | inr (f, bad) ↦ elim (Bool-cases (overran t manual d)) [
      | inl over ↦ rw (idle, bad, over) (refl, refl, refl, refl)
      | inr in_time ↦ rw (idle, bad, in_time) (refl, refl, refl, ground arith)
    ]
  ]

  failed-length : (es : List Execution) → failed es ≤ length es
  unfolding failed
  failed-length [] = omega arith
  failed-length (e ∷ es) = elim (Option-cases (fault_of describe e.1)) [
    | inl fine ↦ rw fine (omega (arith, failed-length es))
    | inr (f, bad) ↦ rw bad (omega (arith, failed-length es))
  ]

  -- The events of an execution that reports so many failures.
  abbrev pub told_of : Bool → Outcome → ℤ → ℕ → List Notice
  told_of manual o d n =
      let notices = recovery o ++ collector_error n ∷ [] in
      if overran t manual d then notices ++ task_skipped ∷ [] else notices

  report_failure :
      (manual : Bool) (o : Outcome) (f : Fault) (now : ℕ) (d : ℤ) (st : TaskStat)
      → st.running ≡ false
      → fault_of describe o ≡ some f
      → f.cause ≡ other
      → f.text ≢ ""
      → (execute describe t manual now o d st).2 ≡ told_of manual o d (st.failures + 1)
  unfolding execute consecutive_failures
  report_failure manual o f now d st idle fault cause text =
      let full : string_eq.beq f.text "" ≡ false = elim (Bool-cases (string_eq.beq f.text "")) [
        | inl blank ↦ absurd (text ((string_eq.beq_iff f.text "").0 blank))
        | inr full ↦ full
      ] in
      elim (Bool-cases (overran t manual d)) [
        | inl over ↦ rw (idle, fault, over, cause, full) refl
        | inr in_time ↦ rw (idle, fault, in_time, cause, full) refl
      ]

  -- What is known of the statistics after the executions.
  Counted : TaskStat → List Execution → TaskStat → Type 0
  Counted st es st' =
      (st'.running ≡ false)
      × (st'.runs ≡ st.runs + length es)
      × (st'.failures ≡ st.failures + failed es)
      × (st'.skips ≡ st.skips + late es)

  none-Counted : (st : TaskStat) → st.running ≡ false → Counted st [] st
  unfolding failed late Counted
  none-Counted st idle = (idle, ground arith, ground arith, ground arith)

  one-Counted :
      (manual : Bool) (now : ℕ) (o : Outcome) (d : ℤ) (st st' : TaskStat) (es : List Execution)
      → st.running ≡ false
      → Counted (execute describe t manual now o d st).0 es st'
      → Counted st ((manual, o, d) ∷ es) st'
  unfolding failed late Counted
  one-Counted manual now o d st st' es idle (still, runs, failures, skips) =
      let (a, b, c, e) = execute-idle manual now o d st idle in
      (still, omega arith, omega arith, omega arith)

  stopped_stays :
      (rs : List Received) (st : TaskStat) (timer : Option ℤ)
      → let l : Loop = record { stat = st; timer = timer; stopped = true } in
        run_loop describe t l rs ≡ l
  unfolding run_loop
  stopped_stays [] st timer = refl
  stopped_stays (r ∷ rs) st timer = stopped_stays rs st timer

  stopped-Counted :
      (rs : List Received) (st : TaskStat) (timer : Option ℤ)
      → st.running ≡ false
      → Counted st []
          (run_loop describe t (record { stat = st; timer = timer; stopped = true }) rs).stat
  stopped-Counted rs st timer idle =
      subst (λ x. Counted st [] x.stat) (sym (stopped_stays rs st timer)) (none-Counted st idle)

  after_fired :
      (once : Bool) (rs : List Received) (st : TaskStat) (next : ℤ)
      → st.running ≡ false
      → let again : Loop = record {
        stat = record st { next_run = next };
        timer = some next;
        stopped = false;
      } in
        Counted again.stat (executions true false rs) (run_loop describe t again rs).stat
        → let again : Loop = record {
          stat = record st { next_run = next };
          timer = some next;
          stopped = false;
        } in
          let done : Loop = record { stat = st; timer = none; stopped = true } in
          Counted st
            (executions true once rs)
            (run_loop describe t (if once then done else again) rs).stat
  unfolding executions Counted
  after_fired true rs st next idle rest = stopped-Counted rs st none idle
  after_fired false rs st next idle rest = rest

  history :
      (rs : List Received) (st : TaskStat) (timer : Option ℤ) (stopped : Bool)
      → st.running ≡ false
      → Counted st
          (executions (is_some timer) stopped rs)
          (run_loop describe t (record { stat = st; timer = timer; stopped = stopped }) rs).stat
  unfolding executions run_loop
  history rs st timer true idle = stopped-Counted rs st timer idle
  history [] st timer false idle = none-Counted st idle
  history (cancelled ∷ rs) st timer false idle = stopped-Counted rs st timer idle
  history (requested now o d ∷ rs) st timer false idle =
      let st1 = (execute describe t true now o d st).0 in
      one-Counted true now o d st _ (executions (is_some timer) false rs) idle
        (history rs st1 timer false (execute-idle true now o d st idle).0)
  history (fired now o d spread after ∷ rs) st none false idle = history rs st none false idle
  history (fired now o d spread after ∷ rs) st (some at) false idle =
      let st1 = (execute describe t false now o d st).0 in
      let still = (execute-idle false now o d st idle).0 in
      let next = pos after +ℤ (t.interval +ℤ spread) in
      one-Counted false now o d st _ (executions true (leb_ℤ t.interval (pos 0)) rs) idle (
        after_fired (leb_ℤ t.interval (pos 0)) rs st1 next still
          (history rs (record st1 { next_run = next }) (some next) false still))

  -- Over whatever the goroutine of a task receives, from statistics that are not running: no run finds
  -- another one running, the task is not running afterwards, and runs, failures and skips have grown by
  -- the number of its executions, of those among them that failed, and of the scheduled ones that took
  -- longer than the interval; so failures never outnumber runs if they did not before.
  pub run_loop-counts :
      (rs : List Received) (l : Loop)
      → l.stat.running ≡ false
      → let st' = (run_loop describe t l rs).stat in
        let es = executions (is_some l.timer) l.stopped rs in
        (st'.running ≡ false)
        × (st'.runs ≡ l.stat.runs + length es)
        × (st'.failures ≡ l.stat.failures + failed es)
        × (st'.skips ≡ l.stat.skips + late es)
        × (failed es ≤ length es)
  unfolding Counted
  run_loop-counts rs l idle =
      let (a, b, c, d) = history rs l.stat l.timer l.stopped idle in
      (a, b, c, d, failed-length (executions (is_some l.timer) l.stopped rs))

  -- A failure is reported with the number of all failures of the task so far, however many runs
  -- succeeded in between: after any history, the next run that fails or panics, by hand or on schedule,
  -- with a text and neither for the deadline nor for the end of the agent, reports all earlier failures
  -- and itself, beside the events of a panic and of a run that took too long.
  pub consecutive-IsTotal :
      (rs : List Received) (st : TaskStat) (timer : Option ℤ) (manual : Bool) (o : Outcome)
      (f : Fault) (now : ℕ) (d : ℤ)
      → st.running ≡ false
      → fault_of describe o ≡ some f
      → f.cause ≡ other
      → f.text ≢ ""
      → let st' =
          (run_loop describe t (record { stat = st; timer = timer; stopped = false }) rs).stat in
        (execute describe t manual now o d st').2
        ≡ told_of manual o d (st.failures + failed (executions (is_some timer) false rs) + 1)
  unfolding Counted
  consecutive-IsTotal rs st timer manual o f now d idle fault cause text =
      let st' =
        (run_loop describe t (record { stat = st; timer = timer; stopped = false }) rs).stat in
      let (a, b, c, e) = history rs st timer false idle in
      report_failure manual o f now d st' a fault cause text
      ∙ ap (λ n. told_of manual o d (n + 1)) c
