-- ===== src/Lateral/Grade.antt =====
-- internal/lateral/detector.go: how a finding is graded.
pub mod Scores
use i_pulse.Base.{
  ℕ, ◌+◌, ◌-◌, ◌*◌, ◌/◌, Bool, true, false, ◌&&◌, List, [], ◌∷◌, ltb, leb, ◌==◌, if◌then◌else◌,
  length,
}
use i_pulse.Lateral.State.{Confidence, low, medium, high}

abbrev failure_score : ℕ → ℕ → ℕ
failure_score observed failed =
    if ltb 0 observed && failed == observed
    then 3
    else if ltb (observed / 2) failed
    then 2
    else if ltb 0 failed
    then 1
    else 0

abbrev scale_score : ℕ → ℕ → ℕ
scale_score observed threshold =
    if leb (threshold * 3) observed then 2 else if leb (threshold * 2) observed then 1 else 0

-- `confidenceFor`
unfoldable pub confidence_for : ℕ → ℕ → ℕ → Bool → Confidence
confidence_for observed threshold failed sequential =
    let score =
      failure_score observed failed
      + scale_score observed threshold
      + (if sequential then 1 else 0) in
    if leb 4 score then high else if leb 2 score then medium else low

-- The pairs of neighbours that differ by one, in a sorted list.
unfoldable pub steps : List ℕ → ℕ
steps [] = 0
steps (a ∷ []) = 0
steps (a ∷ b ∷ l) = (if a + 1 == b then 1 else 0) + steps (b ∷ l)

-- `isSequential`, on a sorted list.
unfoldable pub is_sequential : List ℕ → Bool
is_sequential l = if ltb (length l) 4 then false else leb ((length l - 1) * 3 / 4) (steps l)
