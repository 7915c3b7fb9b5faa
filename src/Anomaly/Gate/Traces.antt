-- ===== src/Anomaly/Gate/Traces.antt =====
-- internal/anomaly/gate.go: one key's condition over a whole sequence of observations.
use i_pulse.Base.{
  ℕ, pos, sub_ℕ, ◌+◌, ◌≤◌, ◌≡◌, refl, ap, ◌∙◌, Bool, true, false, List, [], ◌∷◌, arith,
}
use i_pulse.Anomaly.Gate.{Gate, GateState, cell, breach_cell, clear_cell}

-- The state after a sequence of observations, each a truth value with its instant.
unfoldable pub run_cell : Gate → GateState → List (Bool × ℕ) → GateState
run_cell g st [] = st
run_cell g st ((b, now) ∷ obs) = run_cell g (cell g st b now).0 obs

abbrev pub flag : Bool → ℕ
flag true = 1
flag false = 0

pub fires : Gate → GateState → List (Bool × ℕ) → ℕ
fires g st [] = 0
fires g st ((b, now) ∷ obs) = flag (cell g st b now).1.fire + fires g (cell g st b now).0 obs

pub recoveries : Gate → GateState → List (Bool × ℕ) → ℕ
recoveries g st [] = 0
recoveries g st ((b, now) ∷ obs) =
    flag (cell g st b now).1.recovered + recoveries g (cell g st b now).0 obs

pub step_balance :
    (g : Gate) (st : GateState) (b : Bool) (now : ℕ)
    → flag (cell g st b now).1.recovered + flag (cell g st b now).0.firing
      ≤ flag st.firing + flag (cell g st b now).1.fire
unfolding cell breach_cell clear_cell
step_balance g st true now = ground arith
step_balance g st false now = ground arith

pub step_balance_once :
    (g : Gate) (st : GateState) (b : Bool) (now : ℕ)
    → g.cooldown ≡ pos 0
    → flag (cell g st b now).1.recovered + flag (cell g st b now).0.firing
      ≡ flag st.firing + flag (cell g st b now).1.fire
unfolding cell breach_cell clear_cell
step_balance_once g st true now c = ground arith
step_balance_once g st false now c = ground arith

recoveries-le :
    (g : Gate) (st : GateState) (obs : List (Bool × ℕ))
    → recoveries g st obs + flag (run_cell g st obs).firing ≤ flag st.firing + fires g st obs
unfolding run_cell fires recoveries
recoveries-le g st [] = omega arith
recoveries-le g st ((b, now) ∷ obs) =
    omega (arith, step_balance g st b now, recoveries-le g (cell g st b now).0 obs)

recoveries-eq :
    (g : Gate) (st : GateState) (obs : List (Bool × ℕ))
    → g.cooldown ≡ pos 0
    → recoveries g st obs + flag (run_cell g st obs).firing ≡ flag st.firing + fires g st obs
unfolding run_cell fires recoveries
recoveries-eq g st [] c = omega arith
recoveries-eq g st ((b, now) ∷ obs) c =
    omega (arith, step_balance_once g st b now c, recoveries-eq g (cell g st b now).0 obs c)

-- Events and recoveries: over any observations of a key, no recovery is reported without an event before
-- it, each event having at most one recovery; and without a cooldown events and recoveries
-- alternate, so that their numbers differ by the firing flags at the two ends alone.
pub fires-recoveries_balance :
    (g : Gate) (st : GateState) (obs : List (Bool × ℕ))
    → (recoveries g st obs + flag (run_cell g st obs).firing ≤ flag st.firing + fires g st obs)
      × (g.cooldown ≡ pos 0
          → recoveries g st obs + flag (run_cell g st obs).firing ≡ flag st.firing + fires g st obs)
fires-recoveries_balance g st obs = (recoveries-le g st obs, recoveries-eq g st obs)

-- Observations that the condition is absent, at the given instants.
abbrev pub clears_at : List ℕ → List (Bool × ℕ)
clears_at [] = []
clears_at (now ∷ ts) = (false, now) ∷ clears_at ts

clear-first_breach :
    (g : Gate) (st : GateState) (now : ℕ) → (cell g st false now).0.first_breach ≡ st.first_breach
unfolding cell clear_cell
clear-first_breach g st now = ground arith

clears-first_breach :
    (g : Gate) (st : GateState) (ts : List ℕ)
    → (run_cell g st (clears_at ts)).first_breach ≡ st.first_breach
unfolding run_cell
clears-first_breach g st [] = refl
clears-first_breach g st (now ∷ ts) =
    clears-first_breach g (cell g st false now).0 ts ∙ clear-first_breach g st now

clear_resets : (g : Gate) (st : GateState) (now : ℕ) → (cell g st false now).0.breaches ≡ 0
unfolding cell clear_cell
clear_resets g st now = ground arith

breach_restarts :
    (g : Gate) (st : GateState) (now : ℕ)
    → st.breaches ≡ 0
    → (cell g st true now).0.first_breach ≡ now
unfolding cell breach_cell
breach_restarts g st now z = ground arith

recovery_duration :
    (g : Gate) (st : GateState) (now : ℕ)
    → (cell g st false now).1.recovered ≡ true
    → (cell g st false now).1.duration ≡ sub_ℕ now st.first_breach
unfolding cell clear_cell
recovery_duration g st now r = ground arith

-- The duration that a recovery reports is counted from the start of the last unbroken run of
-- breaches, not from the start of the condition: whenever the condition is absent once, at a, and
-- present again at b, a recovery that clear observations complete at c reports c - b, for how long
-- soever the condition was firing before a.
pub blip_restarts_duration :
    (g : Gate) (st : GateState) (a b c : ℕ) (ts : List ℕ)
    → let after = run_cell g (cell g (cell g st false a).0 true b).0 (clears_at ts) in
      (cell g after false c).1.recovered ≡ true → (cell g after false c).1.duration ≡ sub_ℕ c b
blip_restarts_duration g st a b c ts r =
    let blip = (cell g st false a).0 in
    let again = (cell g blip true b).0 in
    recovery_duration g (run_cell g again (clears_at ts)) c r
    ∙ ap (sub_ℕ c) (clears-first_breach g again ts ∙ breach_restarts g blip b (clear_resets g st a))
