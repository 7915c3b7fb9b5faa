-- ===== src/Anomaly/Gate/Rows.antt =====
-- internal/anomaly/gate.go: what is reported of a key, against the history of its observations.
use mathlib.Core.Path.{subst}
use i_pulse.Base.{
  sub_ℕ, negsuc, ◌≤ℤ◌, sym, ◌∙◌, ℕ, suc, pos, ◌+◌, ◌≤◌, ◌≡◌, ◌↔◌, ◌⊎◌, refl, Bool, true, false,
  List, [], ◌∷◌, arith, if◌then◌else◌,
}
use i_pulse.Anomaly.Gate.{Gate, GateState, empty_state, cell, breach_cell, clear_cell}
use i_pulse.Anomaly.Gate.Cell.{
  HasThresholds, IsSound, empty_state-IsSound, cell-IsSound, cell-decision_iff,
}

-- The state of a key after its observations, of which the newest is the first of the list.
unfoldable pub state_after : Gate → List (Bool × ℕ) → GateState
state_after g [] = empty_state
state_after g ((b, now) ∷ obs) = (cell g (state_after g obs) b now).0

-- How many of the newest observations in a row found the condition present, or absent.
unfoldable pub present_for : List (Bool × ℕ) → ℕ
present_for [] = 0
present_for ((true, now) ∷ obs) = suc (present_for obs)
present_for ((false, now) ∷ obs) = 0

unfoldable pub absent_for : List (Bool × ℕ) → ℕ
absent_for [] = 0
absent_for ((true, now) ∷ obs) = 0
absent_for ((false, now) ∷ obs) = suc (absent_for obs)

-- Whether a condition has been reported and has not ended since, and the instant of its last report.
unfoldable pub is_reported : Gate → List (Bool × ℕ) → Bool
is_reported g [] = false
is_reported g ((b, now) ∷ obs) =
    let d = (cell g (state_after g obs) b now).1 in
    let before = is_reported g obs in if d.fire then true else if d.recovered then false else before

unfoldable pub reported_at : Gate → List (Bool × ℕ) → ℕ
reported_at g [] = 0
reported_at g ((b, now) ∷ obs) =
    let before = reported_at g obs in
    if (cell g (state_after g obs) b now).1.fire then now else before

-- The state agrees with the history.
record Follows (g : Gate) (obs : List (Bool × ℕ)) (st : GateState) : Type 0 where
  breaches : st.breaches ≡ present_for obs
  clears : st.firing ≡ true → st.clears ≡ absent_for obs
  firing : st.firing ≡ is_reported g obs
  last_fired : st.last_fired ≡ reported_at g obs

cell-Follows :
    (g : Gate) (obs : List (Bool × ℕ)) (b : Bool) (now : ℕ)
    → Follows g obs (state_after g obs)
    → Follows g ((b, now) ∷ obs) (cell g (state_after g obs) b now).0
unfolding cell breach_cell clear_cell present_for absent_for is_reported reported_at
cell-Follows g obs true now h = record {
  breaches = ground (arith, h.breaches);
  clears = ground (arith, h.clears);
  firing = ground (arith, h.firing);
  last_fired = ground (arith, h.last_fired);
}
cell-Follows g obs false now h = record {
  breaches = ground (arith, h.breaches);
  clears = ground (arith, h.clears, h.firing);
  firing = ground (arith, h.firing);
  last_fired = ground (arith, h.last_fired);
}

history :
    (g : Gate) (obs : List (Bool × ℕ))
    → HasThresholds g
    → IsSound g (state_after g obs) × Follows g obs (state_after g obs)
unfolding state_after present_for absent_for is_reported reported_at
history g [] t = (
  empty_state-IsSound g t,
  record { breaches = refl; clears = λ h. refl; firing = refl; last_fired = refl },
)
history g ((b, now) ∷ obs) t =
    let (sound, follows) = history g obs t in
    (cell-IsSound g (state_after g obs) b now t sound, cell-Follows g obs b now follows)

-- A condition that was last reported at an instant may be reported again: the cooldown is negative, or
-- it is positive and has passed since. With a cooldown of 0 it is never reported again.
abbrev pub MayRepeat : Gate → ℕ → ℕ → Type 0
MayRepeat g last now =
    (g.cooldown ≤ℤ negsuc 0) ⊎ ((pos 1 ≤ℤ g.cooldown) × (g.cooldown ≤ℤ sub_ℕ now last))

-- When an observation is reported, after any history of a key that starts without a state, if the
-- thresholds are at least 1: an event fires exactly when the condition is present, has been present for
-- the configured number of observations in a row, this one included, and either is not reported or may
-- be reported again; a recovery is reported exactly when the condition is reported, and is now absent
-- for the configured number of observations in a row; and the decision calls the condition firing
-- exactly when, after this observation, an event has fired and no recovery has been reported since.
pub cell-state_after_iff :
    (g : Gate) (obs : List (Bool × ℕ)) (b : Bool) (now : ℕ)
    → HasThresholds g
    → let d = (cell g (state_after g obs) b now).1 in
      ((d.fire ≡ true) ↔ (
        (b ≡ true)
        × (g.persistence ≤ present_for obs + 1)
        × ((is_reported g obs ≡ false) ⊎ MayRepeat g (reported_at g obs) now)))
      × ((d.recovered ≡ true) ↔ (
          (b ≡ false) × (is_reported g obs ≡ true) × (absent_for obs + 1 ≡ g.recovery_persistence)))
      × (d.is_firing ≡ is_reported g ((b, now) ∷ obs))
cell-state_after_iff g obs b now t =
    let st = state_after g obs in
    let (sound, h) = history g obs t in
    let (fires, recovers, flagged) = cell-decision_iff g st b now sound in
    (
      subst
          (λ n. ((cell g st b now).1.fire ≡ true) ↔ (
            (b ≡ true)
            × (g.persistence ≤ n + 1)
            × ((is_reported g obs ≡ false) ⊎ MayRepeat g (reported_at g obs) now)))
          h.breaches
          (subst
            (λ f. ((cell g st b now).1.fire ≡ true) ↔ (
              (b ≡ true)
              × (g.persistence ≤ st.breaches + 1)
              × ((f ≡ false) ⊎ MayRepeat g (reported_at g obs) now)))
            h.firing
            (subst
              (λ l. ((cell g st b now).1.fire ≡ true) ↔ (
                (b ≡ true)
                × (g.persistence ≤ st.breaches + 1)
                × ((st.firing ≡ false) ⊎ MayRepeat g l now)))
              h.last_fired fires)),
      (
        (λ r.
            let (gone, firing, n) = recovers.0 r in
            let clears = h.clears firing in
            (gone, sym h.firing ∙ firing, omega (arith, n, clears))),
        λ r.
            let firing = h.firing ∙ r.1 in
            let clears = h.clears firing in
            let n = r.2 in recovers.1 (r.0, firing, omega (arith, n, clears)),
      ),
      sym flagged ∙ (cell-Follows g obs b now h).firing,
    )
