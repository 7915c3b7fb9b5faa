-- ===== src/Agent/BusExamples.antt =====
-- The queue of samples at a concrete input: two publications, the first one received.
use i_pulse.Base.{ℕ, ◌≡◌, refl, true, length, List, [], ◌∷◌, ◌++◌}
use i_pulse.Agent.Bus.{Observation, Step, published, received, publish_samples, new_bus, step}
use i_pulse.Agent.Bus.Accepted.{run, accepted}
use i_pulse.Agent.Bus.Kept.{run-keeps}

abbrev latency : ℕ → Observation ℕ
latency value = record { time = 0; metric = "latency"; target = "dns"; value = value; valid = true }

abbrev steps : List (Step ℕ)
steps = published 20 (latency 7 ∷ []) ∷ received ∷ published 10 (latency 5 ∷ latency 6 ∷ []) ∷ []

run-keeps_example : (run 1 steps).delivered ++ (run 1 steps).queue ≡ accepted 1 steps
run-keeps_example = (run-keeps 1 steps).0

steps_left : length (run 1 steps).queue ≡ 1
unfolding run step publish_samples new_bus
steps_left = refl
