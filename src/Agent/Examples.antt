-- ===== src/Agent/Examples.antt =====
-- The scheduler at concrete inputs: a probe every ten seconds that fails, recovers and fails again.
use i_pulse.Base.{ℕ, pos, ◌≡◌, refl, true, false, List, [], ◌∷◌, String, none, some, string_eq}
use i_pulse.Agent.Scheduler.{
  Task, Fault, other, returned, panicked, panic_recovered, Loop, Received, requested, fired,
  execute, begin_loop, run_loop, add, new_scheduler, new_stat, collector_error,
}
use i_pulse.Agent.Scheduler.Registry.{find_task, add_lem}
use i_pulse.Agent.Scheduler.History.{executions, failed, run_loop-counts, consecutive-IsTotal}
use i_pulse.Agent.Scheduler.Ending.{begin_loop-ends}

abbrev probe : Task ℕ
probe = record {
  name = "dns";
  interval = pos 10;
  timeout = pos 5;
  jitter = pos 0;
  initial_delay = pos 0;
  run_on_start = true;
  manual_only = false;
  fn = some 1;
}

abbrev slower : Task ℕ
slower = record probe { interval = pos 60 }

abbrev unreachable : Fault
unreachable = record { text = "unreachable"; cause = other }

abbrev panic_text : String → String
panic_text s = s

-- A failure, a success that takes too long, and a second failure.
abbrev received : List Received
received =
    fired 0 (returned (some unreachable)) (pos 1) (pos 0) 1
    ∷ fired 11 (returned none) (pos 12) (pos 0) 23
    ∷ requested 24 (returned (some unreachable)) (pos 1)
    ∷ []

abbrev first_loop : Loop
first_loop = record { stat = new_stat "dns" (pos 10); timer = some (pos 0); stopped = false }

add_lem_example : find_task "dns" (add (add new_scheduler probe).0 slower).0.tasks ≡ some slower
unfolding add new_scheduler
add_lem_example = (add_lem (add new_scheduler probe).0 slower "dns").2 refl

run_loop-counts_example : (run_loop panic_text probe first_loop received).stat.failures ≡ 2
unfolding executions failed
run_loop-counts_example = (run_loop-counts panic_text probe received first_loop refl).2

-- A scheduled run that panics, after two failures.
consecutive-IsTotal_example :
    (execute panic_text probe false 30
      (panicked "nil")
      (pos 1)
      (run_loop panic_text probe first_loop received).stat).2
    ≡ panic_recovered ∷ collector_error 3 ∷ []
unfolding executions failed
consecutive-IsTotal_example =
    consecutive-IsTotal panic_text probe received (new_stat "dns" (pos 10)) (some (pos 0)) false
      (panicked "nil") (record { text = panic_text "nil"; cause = other }) 30 (pos 1) refl refl refl
      (λ e. absurd (cc e))

begin_loop-ends_example :
    (run_loop panic_text probe
      (begin_loop panic_text probe 0 (pos 0) (new_stat "dns" (pos 10)))
      received).stopped
    ≡ false
begin_loop-ends_example =
    begin_loop-ends panic_text probe received 0 (pos 0) (new_stat "dns" (pos 10))
