-- ===== src/Anomaly/Gate/Keys.antt =====
-- internal/anomaly/gate.go: the keyed gate is one independent condition for each key.
use i_pulse.Base.{
  ℕ, ◌≡◌, refl, ap, ◌∙◌, ◌↔◌, ◌⊎◌, ◌<◌, Bool, true, false, List, [], ◌∷◌, String, none, some,
  if◌then◌else◌, arith, get, put, get-put, get-retain, string_eq, Bool-cases, inl, inr,
}
use i_pulse.Anomaly.Gate.{
  Gate, GateState, cell, breach_cell, clear_cell, state, observe, is_firing, prune, survives,
}
use i_pulse.Anomaly.Gate.Traces.{run_cell}

-- Observations of many keys.
pub run : Gate → List (String × Bool × ℕ) → Gate
run g [] = g
run g ((key, b, now) ∷ obs) = run (observe g key b now).0 obs

-- Those of one key.
pub only : String → List (String × Bool × ℕ) → List (Bool × ℕ)
only k [] = []
only k ((key, b, now) ∷ obs) =
    let rest = only k obs in if string_eq.beq key k then (b, now) ∷ rest else rest

pub observe_self :
    (g : Gate) (key : String) (b : Bool) (now : ℕ)
    → observe g key b now ≡ (
      record g { states = put key (cell g (state g key) b now).0 g.states },
      (cell g (state g key) b now).1,
    )
unfolding observe cell
observe_self g key true now = refl
observe_self g key false now = refl

-- A condition reads the gate's configuration alone.
pub cell-states :
    (g : Gate) (m : List (String × GateState)) (st : GateState) (b : Bool) (now : ℕ)
    → cell (record g { states = m }) st b now ≡ cell g st b now
unfolding cell breach_cell clear_cell
cell-states g m st true now = refl
cell-states g m st false now = refl

run_cell-states :
    (g : Gate) (m : List (String × GateState)) (st : GateState) (obs : List (Bool × ℕ))
    → run_cell (record g { states = m }) st obs ≡ run_cell g st obs
unfolding run_cell
run_cell-states g m st [] = refl
run_cell-states g m st ((b, now) ∷ obs) =
    ap (λ c. run_cell (record g { states = m }) c.0 obs) (cell-states g m st b now)
    ∙ run_cell-states g m (cell g st b now).0 obs

state-put :
    (g : Gate) (key k : String) (st : GateState)
    → state (record g { states = put key st g.states }) k
      ≡ (if string_eq.beq key k then st else state g k)
unfolding state
state-put g key k st = ground (arith, get-put key k st g.states)

-- The state of a key after an observation, of the same key or of another.
pub state-observe :
    (g : Gate) (key k : String) (b : Bool) (now : ℕ)
    → state (observe g key b now).0 k
      ≡ (if string_eq.beq key k then (cell g (state g key) b now).0 else state g k)
state-observe g key k b now =
    ap (λ r. state r.0 k) (observe_self g key b now)
    ∙ state-put g key k (cell g (state g key) b now).0

pub run_cell-observe :
    (g : Gate) (key : String) (b : Bool) (now : ℕ) (st : GateState) (obs : List (Bool × ℕ))
    → run_cell (observe g key b now).0 st obs ≡ run_cell g st obs
run_cell-observe g key b now st obs =
    ap (λ r. run_cell r.0 st obs) (observe_self g key b now) ∙ run_cell-states g _ st obs

run_cell-only :
    (g : Gate) (key k : String) (b : Bool) (now : ℕ) (obs : List (String × Bool × ℕ))
    → run_cell g
        (if string_eq.beq key k then (cell g (state g key) b now).0 else state g k)
        (only k obs)
      ≡ run_cell g (state g k) (only k ((key, b, now) ∷ obs))
unfolding only run_cell
run_cell-only g key k b now obs = elim (Bool-cases (string_eq.beq key k)) [
  | inl same ↦ rw (same, (string_eq.beq_iff key k).0 same)
  | inr other ↦ rw other
]

state-run :
    (g : Gate) (k : String) (obs : List (String × Bool × ℕ))
    → state (run g obs) k ≡ run_cell g (state g k) (only k obs)
unfolding run only run_cell
state-run g k [] = refl
state-run g k ((key, b, now) ∷ obs) =
    state-run (observe g key b now).0 k obs
    ∙ run_cell-observe g key b now (state (observe g key b now).0 k) (only k obs)
    ∙ ap (λ st. run_cell g st (only k obs)) (state-observe g key k b now)
    ∙ run_cell-only g key k b now obs

cell-observe :
    (g : Gate) (key : String) (b : Bool) (now : ℕ) (st : GateState) (c : Bool) (at : ℕ)
    → cell (observe g key b now).0 st c at ≡ cell g st c at
cell-observe g key b now st c at =
    ap (λ r. cell r.0 st c at) (observe_self g key b now) ∙ cell-states g _ st c at

cell-run :
    (g : Gate) (obs : List (String × Bool × ℕ)) (st : GateState) (c : Bool) (at : ℕ)
    → cell (run g obs) st c at ≡ cell g st c at
unfolding run
cell-run g [] st c at = refl
cell-run g ((key, b, now) ∷ obs) st c at =
    cell-run (observe g key b now).0 obs st c at ∙ cell-observe g key b now st c at

-- Each key is on its own: whatever has been observed of any keys in any order, what the gate
-- decides of the next observation of a key is what a condition that has seen the observations of
-- that key alone decides of it.
pub observe-run_independent :
    (g : Gate) (k : String) (obs : List (String × Bool × ℕ)) (b : Bool) (now : ℕ)
    → (observe (run g obs) k b now).1 ≡ (cell g (run_cell g (state g k) (only k obs)) b now).1
observe-run_independent g k obs b now =
    ap (λ r. r.1) (observe_self (run g obs) k b now)
    ∙ ap (λ r. r.1) (cell-run g obs (state (run g obs) k) b now)
    ∙ ap (λ st. (cell g st b now).1) (state-run g k obs)

-- What pruning forgets: it never changes whether a key is firing, and a key that had a state loses it
-- exactly when it is not firing and the later of its last report and the start of its last run of
-- breaches is missing or before the cutoff, whenever it was last observed.
pub prune_safe :
    (g : Gate) (before : ℕ) (k : String)
    → (is_firing (prune g before) k ≡ is_firing g k)
      × ((st : GateState)
          → get k g.states ≡ some st
          → ((get k (prune g before).states ≡ none) ↔ (
              (st.firing ≡ false)
              × (((st.last_fired ≡ 0) × (st.first_breach ≡ 0))
                  ⊎ ((st.last_fired < before) × (st.first_breach < before))))))
unfolding is_firing prune survives
prune_safe g before k = ground (arith, get-retain (survives before) k g.states)
