-- ===== src/Anomaly/Sustained.antt =====
-- internal/anomaly/rules.go: the rule that reports a metric which stays above a floor. A method
-- returns the new rule; the mutex makes each call one step. Instants are nanoseconds since Go's zero
-- time, as in the gate; the number of samples is not wrapped.
pub mod Streaks
pub mod Telling
use i_pulse.Base.{
  ℕ, ℤ, pos, ltb_ℤ, leb_ℤ, sub_ℕ, ◌+◌, Bool, true, false, not, ◌&&◌, ◌||◌, List, [], ◌∷◌, String,
  Option, none, some, ◌==◌, if◌then◌else◌, get, put, delete, string_eq, Floats,
}

module _ (F : Type 0) where
  pub record SustainedState : Type 0 where
    pub since : ℕ
    pub last : ℕ
    pub reported : ℕ
    pub peak : F
    pub total : F
    pub samples : ℕ

  pub record SustainedRule : Type 0 where
    pub metric : String
    pub floor : F
    pub min_duration : ℤ
    pub repeat : ℤ
    pub state : List (String × SustainedState)

  pub record SustainedFinding : Type 0 where
    pub metric : String
    pub dimension : String
    pub average : F
    pub peak : F
    pub duration : ℤ
    pub samples : ℕ
    pub ended : Bool

module _ {F : Type 0} ⦃fl : Floats F⦄ where
  -- `&sustainedState{}`
  abbrev pub at_rest : SustainedState F
  at_rest = record {
    since = 0;
    last = 0;
    reported = 0;
    peak = fl.decimal 0 0;
    total = fl.decimal 0 0;
    samples = 0;
  }

  unfoldable pub new_sustained_rule : String → F → ℤ → ℤ → SustainedRule F
  new_sustained_rule metric floor min_duration repeat = record {
    metric = metric;
    floor = floor;
    min_duration = min_duration;
    repeat = repeat;
    state = [];
  }

  unfoldable pub average : SustainedState F → F
  average st = if st.samples == 0 then fl.decimal 0 0 else fl.div st.total (fl.of_count st.samples)

  -- The sample is folded into the state.
  unfoldable pub take_sample : SustainedState F → F → ℕ → SustainedState F
  take_sample st value now = record st {
    since = if st.since == 0 then now else st.since;
    last = now;
    samples = st.samples + 1;
    total = fl.add st.total value;
    peak = if fl.lt st.peak value then value else st.peak;
  }

  -- Whether a report of the ongoing condition has to wait.
  unfoldable pub waits : SustainedRule F → SustainedState F → ℕ → Bool
  waits r st now =
      ltb_ℤ (sub_ℕ now st.since) r.min_duration
      || (not (st.reported == 0)
          && (leb_ℤ r.repeat (pos 0) || ltb_ℤ (sub_ℕ now st.reported) r.repeat))

  abbrev ending : SustainedRule F → String → SustainedState F → SustainedFinding F
  ending r dimension st = record {
    metric = r.metric;
    dimension = dimension;
    average = average st;
    peak = st.peak;
    duration = sub_ℕ st.last st.since;
    samples = st.samples;
    ended = true;
  }

  abbrev ongoing : SustainedRule F → String → SustainedState F → ℕ → SustainedFinding F
  ongoing r dimension st now = record {
    metric = r.metric;
    dimension = dimension;
    average = average st;
    peak = st.peak;
    duration = sub_ℕ now st.since;
    samples = st.samples;
    ended = false;
  }

  -- `Observe` on the state of its dimension, below the floor and from it on.
  unfoldable pub drop_below :
      SustainedRule F → String → SustainedState F → SustainedState F × Option (SustainedFinding F)
  drop_below r dimension st =
      if st.since == 0
      then (st, none)
      else if st.reported == 0
      then (at_rest, none)
      else (at_rest, some (ending r dimension st))

  unfoldable pub stay_above :
      SustainedRule F
      → String
      → SustainedState F
      → ℕ
      → SustainedState F × Option (SustainedFinding F)
  stay_above r dimension st now =
      if waits r st now
      then (st, none)
      else (record st { reported = now }, some (ongoing r dimension st now))

  unfoldable pub observe_sample :
      SustainedRule F
      → String
      → SustainedState F
      → F
      → ℕ
      → SustainedState F × Option (SustainedFinding F)
  observe_sample r dimension st value now =
      if fl.lt value r.floor
      then drop_below r dimension st
      else stay_above r dimension (take_sample st value now) now

  abbrev or_rest : Option (SustainedState F) → SustainedState F
  or_rest none = at_rest
  or_rest (some st) = st

  unfoldable pub state_of : SustainedRule F → String → SustainedState F
  state_of r dimension = or_rest (get dimension r.state)

  -- `Observe`
  unfoldable pub observe :
      SustainedRule F → String → F → ℕ → SustainedRule F × Option (SustainedFinding F)
  observe r dimension value now =
      if leb_ℤ r.min_duration (pos 0)
      then (r, none)
      else let (st, finding) = observe_sample r dimension (state_of r dimension) value now in
        (record r { state = put dimension st r.state }, finding)

  abbrev active_state : Option (SustainedState F) → ℤ × Bool
  active_state none = (pos 0, false)
  active_state (some st) = if st.since == 0 then (pos 0, false) else (sub_ℕ st.last st.since, true)

  -- `Active`
  unfoldable pub active : SustainedRule F → String → ℤ × Bool
  active r dimension = active_state (get dimension r.state)

  -- `Reset`
  unfoldable pub reset : SustainedRule F → String → SustainedRule F
  reset r dimension = record r { state = delete dimension r.state }
