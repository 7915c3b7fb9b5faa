-- ===== src/Api/Examples.antt =====
-- The rate limiter at a concrete input.
use i_pulse.Base.{ℕ, pos, ◌<◌, ◌≡◌, ◌↔◌, true, List, [], ◌∷◌, String, arith, length, keep_if}
use i_pulse.Api.RateLimit.{new_limiter, allow, recent}
use i_pulse.Api.RateLimit.Sliding.{run_requests, granted, allow-granted}

abbrev requests : List (String × ℕ)
requests = ("a", 10) ∷ ("b", 11) ∷ ("a", 12) ∷ ("a", 13) ∷ []

allow-granted_example :
    ((allow (run_requests (new_limiter (pos 2) 60) requests) "a" 75).1 ≡ true) ↔ (
      length (keep_if (recent 60 75) (granted "a" (new_limiter (pos 2) 60) requests))
      < (new_limiter (pos 2) 60).limit)
allow-granted_example =
    allow-granted (pos 2) 60 "a" requests 75
      (omega arith, (omega arith, (omega arith, (omega arith, tt)))) (omega arith)
