-- ===== src/Anomaly/Gate.antt =====
-- internal/anomaly/gate.go. A method on `*Gate` returns the new gate; the mutex makes each call
-- one step. Instants are nanoseconds since Go's zero time, which is 0, so a cutoff is a number; a
-- difference of instants is an integer, since a clock may go back. The streak counters grow by one
-- with each observation and are not wrapped.

pub mod Cell
pub mod Rows
pub mod Keys
pub mod Traces
use i_pulse.Base.{
  ℕ, ℤ, pos, ltb_ℤ, pos_part, sub_ℕ, leb_ℤ, ◌+◌, Bool, true, false, not, ◌&&◌, ◌||◌, List, [],
  String, Option, none, some, ltb, ◌==◌, if◌then◌else◌, get, put, delete, retain, string_eq,
}

pub record GateState : Type 0 where
  pub breaches : ℕ
  pub clears : ℕ
  pub firing : Bool
  pub first_breach : ℕ
  pub last_fired : ℕ
  pub fired_count : ℕ

pub record Gate : Type 0 where
  pub persistence : ℕ
  pub recovery_persistence : ℕ
  pub cooldown : ℤ
  pub states : List (String × GateState)

pub record Decision : Type 0 where
  pub fire : Bool
  pub recovered : Bool
  pub consecutive : ℕ
  pub is_firing : Bool
  pub duration : ℤ
  pub suppressed : Bool

-- `&gateState{}`
abbrev pub empty_state : GateState
empty_state = record {
  breaches = 0;
  clears = 0;
  firing = false;
  first_breach = 0;
  last_fired = 0;
  fired_count = 0;
}

raise_to_one : ℤ → ℕ
raise_to_one n = if ltb_ℤ n (pos 1) then 1 else pos_part n

unfoldable pub new_gate : ℤ → ℤ → ℤ → Gate
unfolding raise_to_one
new_gate p r c = record {
  persistence = raise_to_one p;
  recovery_persistence = raise_to_one r;
  cooldown = c;
  states = [];
}

-- Already reported, and still inside the cooldown or without one.
abbrev pub quiet : Gate → GateState → ℕ → Bool
quiet g st now =
    (st.firing && (ltb_ℤ (pos 0) g.cooldown && ltb_ℤ (sub_ℕ now st.last_fired) g.cooldown))
    || (st.firing && (leb_ℤ g.cooldown (pos 0) && leb_ℤ (pos 0) g.cooldown))

-- `Breach`, on the state of its key.
unfoldable pub breach_cell : Gate → GateState → ℕ → GateState × Decision
breach_cell g s now =
    let n = s.breaches + 1 in
    let st = record s {
      clears = 0;
      breaches = n;
      first_breach = if n == 1 then now else s.first_breach;
    } in
    let d : Decision = record {
      fire = false;
      recovered = false;
      consecutive = n;
      is_firing = st.firing;
      duration = sub_ℕ now st.first_breach;
      suppressed = false;
    } in
    if ltb n g.persistence
    then (st, d)
    else if quiet g st now
    then (st, record d { suppressed = true })
    else (
      record st { firing = true; last_fired = now; fired_count = st.fired_count + 1 },
      record d { fire = true; is_firing = true },
    )

-- `Clear`, on the state of its key.
unfoldable pub clear_cell : Gate → GateState → ℕ → GateState × Decision
clear_cell g s now =
    let st = record s { breaches = 0; clears = s.clears + 1 } in
    let d : Decision = record {
      fire = false;
      recovered = false;
      consecutive = st.clears;
      is_firing = st.firing;
      duration = pos 0;
      suppressed = false;
    } in
    if not st.firing then (st, d) else if ltb st.clears g.recovery_persistence then (st, d) else (
      record st { firing = false; clears = 0 },
      record d { recovered = true; is_firing = false; duration = sub_ℕ now st.first_breach },
    )

-- `Observe`, on the state of its key.
unfoldable pub cell : Gate → GateState → Bool → ℕ → GateState × Decision
unfolding breach_cell clear_cell
cell g s true now = breach_cell g s now
cell g s false now = clear_cell g s now

-- `g.states[key]`, or a fresh state.
abbrev pub or_empty : Option GateState → GateState
or_empty none = empty_state
or_empty (some st) = st

-- `state` returns a pointer, so what the caller changes is in the map.
unfoldable pub state : Gate → String → GateState
state g key = or_empty (get key g.states)

unfoldable pub breach : Gate → String → ℕ → Gate × Decision
unfolding state
breach g key now =
    let (st, d) = breach_cell g (state g key) now in (record g { states = put key st g.states }, d)

unfoldable pub clear : Gate → String → ℕ → Gate × Decision
unfolding state
clear g key now =
    let (st, d) = clear_cell g (state g key) now in (record g { states = put key st g.states }, d)

unfoldable pub observe : Gate → String → Bool → ℕ → Gate × Decision
unfolding breach clear
observe g key true now = breach g key now
observe g key false now = clear g key now

abbrev firing_of : Option GateState → Bool
firing_of none = false
firing_of (some st) = st.firing

-- `Firing`
unfoldable pub is_firing : Gate → String → Bool
is_firing g key = firing_of (get key g.states)

unfoldable pub reset : Gate → String → Gate
reset g key = record g { states = delete key g.states }

abbrev last_seen : GateState → ℕ
last_seen st = if ltb st.last_fired st.first_breach then st.first_breach else st.last_fired

-- Whether `Prune` keeps a state.
unfoldable pub survives : ℕ → String → GateState → Bool
survives before key st =
    if st.firing then true else not (last_seen st == 0 || ltb (last_seen st) before)

unfoldable pub prune : Gate → ℕ → Gate
prune g before = record g { states = retain (survives before) g.states }
