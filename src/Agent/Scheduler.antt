-- ===== src/Agent/Scheduler.antt =====
-- internal/agent/scheduler.go: the registered tasks, one execution of a task, and the goroutine that
-- serves a task. The work of a task is foreign: a run of it ends in an `Outcome` after some time, and
-- `W` is its type. Counters and instants are not wrapped. Random jitter is an argument.
pub mod Registry
pub mod History
pub mod Ending
use i_pulse.Base.{
  ℕ, ℤ, pos, ltb_ℤ, leb_ℤ, ◌+ℤ◌, ◌+◌, Bool, true, false, not, ◌&&◌, List, [], ◌∷◌, ◌++◌, String,
  Option, none, some, if◌then◌else◌, get, put, string_eq,
}

module _ (W : Type 0) where
  pub record Task : Type 0 where
    pub name : String
    pub interval : ℤ
    pub timeout : ℤ
    pub jitter : ℤ
    pub initial_delay : ℤ
    pub run_on_start : Bool
    pub manual_only : Bool
    pub fn : Option W

pub record TaskStat : Type 0 where
  pub name : String
  pub interval : ℤ
  pub runs : ℕ
  pub failures : ℕ
  pub skips : ℕ
  pub running : Bool
  pub last_run : ℕ
  pub last_duration : ℤ
  pub last_error : String
  pub next_run : ℤ

module _ (W : Type 0) where
  pub record Scheduler : Type 0 where
    pub tasks : List (Task W)
    pub states : List (String × TaskStat)
    pub started : Bool

pub data AddError : Type 0 where
  name_required : AddError
  no_function : String → AddError
  after_start : String → AddError

-- What `errors.Is` finds in an error.
pub data Cause : Type 0 where
  deadline_exceeded canceled other : Cause

pub record Fault : Type 0 where
  pub text : String
  pub cause : Cause

pub data Outcome : Type 0 where
  returned : Option Fault → Outcome
  panicked : String → Outcome

-- The events that an execution emits.
pub data Notice : Type 0 where
  task_skipped panic_recovered task_timeout : Notice
  collector_error : ℕ → Notice

abbrev pub new_stat : String → ℤ → TaskStat
new_stat name interval = record {
  name = name;
  interval = interval;
  runs = 0;
  failures = 0;
  skips = 0;
  running = false;
  last_run = 0;
  last_duration = pos 0;
  last_error = "";
  next_run = pos 0;
}

module _ {W : Type 0} where
  unfoldable pub new_scheduler : Scheduler W
  new_scheduler = record { tasks = []; states = []; started = false }

  -- The loop of `Add`: the first task of the name is replaced; `none` if there is none.
  replace_task : Task W → List (Task W) → Option (List (Task W))
  replace_task t [] = none
  replace_task t (u ∷ us) =
      let rest = replace_task t us in
      if string_eq.beq u.name t.name
      then some (t ∷ us)
      else elim rest [ none ↦ none | some vs ↦ some (u ∷ vs) ]

  add_named : Scheduler W → Task W → Scheduler W
  unfolding replace_task
  add_named s t = elim (replace_task t s.tasks) [
    | some tasks ↦ record s { tasks = tasks }
    | none ↦ record s {
      tasks = s.tasks ++ t ∷ [];
      states = put t.name (new_stat t.name t.interval) s.states;
    }
  ]

  abbrev is_nil : Option W → Bool
  is_nil none = true
  is_nil (some w) = false

  -- `Add`
  unfoldable pub add : Scheduler W → Task W → Scheduler W × Option AddError
  unfolding add_named
  add s t =
      if string_eq.beq t.name ""
      then (s, some name_required)
      else if is_nil t.fn
      then (s, some (no_function t.name))
      else if s.started
      then (s, some (after_start t.name))
      else (add_named s t, none)

  -- `Start`, and the tasks that it launches.
  unfoldable pub start : Scheduler W → Scheduler W × List (Task W)
  start s = (record s { started = true }, s.tasks)

  -- The time limit of one execution.
  unfoldable pub time_limit : Task W → ℤ
  time_limit t =
      if leb_ℤ t.timeout (pos 0)
      then (if leb_ℤ t.interval (pos 0) then pos 30_000_000_000 else t.interval)
      else t.timeout

  -- The delay of the first run; `spread` is what `jitter` drew.
  unfoldable pub first_delay : Task W → ℤ → ℤ
  first_delay t spread =
      if not t.run_on_start && ltb_ℤ (pos 0) t.interval
      then t.initial_delay +ℤ spread +ℤ t.interval
      else t.initial_delay +ℤ spread

-- The deferred recovery makes an error of a panic; `describe` is `fmt.Errorf("panic: %v", r)`.
abbrev pub fault_of : (String → String) → Outcome → Option Fault
fault_of describe (returned e) = e
fault_of describe (panicked r) = some (record { text = describe r; cause = other })

abbrev pub recovery : Outcome → List Notice
recovery (returned e) = []
recovery (panicked r) = panic_recovered ∷ []

-- `consecutiveFailures`
unfoldable pub consecutive_failures : TaskStat → ℕ
consecutive_failures st = if string_eq.beq st.last_error "" then 0 else st.failures

abbrev pub finish_run : TaskStat → ℤ → Option Fault → TaskStat
finish_run st elapsed none = record st {
  running = false;
  runs = st.runs + 1;
  last_duration = elapsed;
  last_error = "";
}
finish_run st elapsed (some f) = record st {
  running = false;
  runs = st.runs + 1;
  last_duration = elapsed;
  failures = st.failures + 1;
  last_error = f.text;
}

abbrev pub report : TaskStat → Option Fault → List Notice
report st none = []
report st (some f) = elim f.cause [
  | deadline_exceeded ↦ task_timeout ∷ []
  | canceled ↦ []
  | other ↦ collector_error (consecutive_failures st) ∷ []
]

-- The result of `execute`: the error, which may be that of an overlap, and the events.
pub data Ended : Type 0 where
  already_running : Ended
  ran : Option Fault → Ended

module _ {W : Type 0} where
  abbrev pub overran : Task W → Bool → ℤ → Bool
  overran t manual elapsed = not manual && (ltb_ℤ (pos 0) t.interval && ltb_ℤ t.interval elapsed)

  -- `execute` of a task that ends in the outcome after `elapsed`.
  unfoldable pub execute :
      (String → String)
      → Task W
      → Bool
      → ℕ
      → Outcome
      → ℤ
      → TaskStat
      → TaskStat × Ended × List Notice
  execute describe t manual now outcome elapsed st =
      if st.running
      then (record st { skips = st.skips + 1 }, already_running, task_skipped ∷ [])
      else let fault = fault_of describe outcome in
        let done = finish_run (record st { running = true; last_run = now }) elapsed fault in
        let notices = recovery outcome ++ report done fault in
        if overran t manual elapsed
        then (record done { skips = done.skips + 1 }, ran fault, notices ++ task_skipped ∷ [])
        else (done, ran fault, notices)

-- The goroutine of a task: its statistics, the deadline of its timer, and whether it has returned.
pub record Loop : Type 0 where
  pub stat : TaskStat
  pub timer : Option ℤ
  pub stopped : Bool

-- What its `select` receives: the end of the agent, a manual request, or the timer; a run begins at
-- an instant, has an outcome and takes some time, and the timer is then set `spread` late.
pub data Received : Type 0 where
  cancelled : Received
  requested : ℕ → Outcome → ℤ → Received
  fired : ℕ → Outcome → ℤ → ℤ → ℕ → Received

module _ {W : Type 0} (describe : String → String) where
  -- `runTask` up to its loop, at the instant `now`.
  unfoldable pub begin_loop : Task W → ℕ → ℤ → TaskStat → Loop
  begin_loop t now spread st =
      if t.manual_only
      then record { stat = st; timer = none; stopped = false }
      else let at = pos now +ℤ first_delay t spread in
        record { stat = record st { next_run = at }; timer = some at; stopped = false }

  abbrev serve_timer : Task W → ℕ → Outcome → ℤ → ℤ → ℕ → Loop → Option ℤ → Loop
  serve_timer t now o elapsed spread after l none = l
  serve_timer t now o elapsed spread after l (some at) =
      let st = (execute describe t false now o elapsed l.stat).0 in
      if leb_ℤ t.interval (pos 0)
      then record l { stat = st; timer = none; stopped = true }
      else let next = pos after +ℤ (t.interval +ℤ spread) in
        record l { stat = record st { next_run = next }; timer = some next }

  -- One round of the loop.
  abbrev pub serve : Task W → Loop → Received → Loop
  serve t l cancelled = record l { stopped = true }
  serve t l (requested now o elapsed) = record l {
    stat = (execute describe t true now o elapsed l.stat).0;
  }
  serve t l (fired now o elapsed spread after) = serve_timer t now o elapsed spread after l l.timer

  unfoldable pub run_loop : Task W → Loop → List Received → Loop
  run_loop t l [] = l
  run_loop t l (r ∷ rs) = run_loop t (if l.stopped then l else serve t l r) rs

pub data TriggerResult : Type 0 where
  no_such_task busy abandoned : TriggerResult
  finished : Ended → TriggerResult

-- What the two `select`s of `Trigger` receive.
pub data Offer : Type 0 where
  accepted : Ended → Offer
  gave_up timed_out : Offer

module _ {W : Type 0} where
  -- `Trigger`
  unfoldable pub trigger : Scheduler W → String → Offer → TriggerResult
  trigger s name offer = elim (get name s.states) [
    | none ↦ no_such_task
    | some st ↦ elim offer [ accepted e ↦ finished e | gave_up ↦ abandoned | timed_out ↦ busy ]
  ]
