-- ===== src/Agent/Bus/Accepted.antt =====
-- internal/agent/bus.go: the steps of a queue of bounded length, by numbers alone.
use i_pulse.Base.{ℕ, ◌+◌, ◌-◌, Bool, true, false, List, [], ◌∷◌, ◌++◌, map, ltb, if◌then◌else◌}
use i_pulse.Agent.Bus.{
  Observation, Bus, Step, published, received, ended, sample_queue_depth, new_bus, stamp,
  is_ignored, step,
}

module _ {V : Type 0} (consumers : ℕ) where
  -- The bus after some steps, of which the newest is the first of the list.
  unfoldable pub run : List (Step V) → Bus V
  run [] = new_bus consumers
  run (s ∷ ss) = step (run ss) s

  -- The batches that were published, the oldest first.
  unfoldable pub batches : List (Step V) → List (List (Observation V))
  batches [] = []
  batches (published now ss ∷ rest) =
      let before = batches rest in
      if is_ignored consumers ss then before else before ++ map (stamp now) ss ∷ []
  batches (received ∷ rest) = batches rest
  batches (ended ∷ rest) = batches rest

  -- A queue of bounded length, by numbers alone: whether the end of the agent has been received, and how
  -- many batches wait.
  unfoldable pub is_over : List (Step V) → Bool
  is_over [] = false
  is_over (ended ∷ rest) = true
  is_over (published now ss ∷ rest) = is_over rest
  is_over (received ∷ rest) = is_over rest

  unfoldable pub waiting : List (Step V) → ℕ
  waiting [] = 0
  waiting (published now ss ∷ rest) =
      let n = waiting rest in
      if is_ignored consumers ss then n else if ltb n sample_queue_depth then n + 1 else n
  waiting (received ∷ rest) = let n = waiting rest in if is_over rest then n else n - 1
  waiting (ended ∷ rest) = let n = waiting rest in if is_over rest then n else 0

  -- The batches that found fewer than 512 waiting, the oldest first.
  unfoldable pub accepted : List (Step V) → List (List (Observation V))
  accepted [] = []
  accepted (published now ss ∷ rest) =
      let before = accepted rest in
      if is_ignored consumers ss
      then before
      else if ltb (waiting rest) sample_queue_depth
      then before ++ map (stamp now) ss ∷ []
      else before
  accepted (received ∷ rest) = accepted rest
  accepted (ended ∷ rest) = accepted rest
