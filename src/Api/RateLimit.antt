-- ===== src/Api/RateLimit.antt =====
-- internal/api/api.go: `rateLimiter`. `allow` filters the hits of a key in the array that the map still
-- refers to; when it refuses, the map keeps the old slice, whose front has been overwritten. Instants
-- are what the clock says, and the window is a constant of the callers.
mod Hits
pub mod Sliding
use i_pulse.Base.{
  ℕ, ℤ, pos, pos_part, leb_ℤ, ◌+◌, ◌-◌, Bool, true, false, not, List, [], ◌∷◌, ◌++◌, String, Option,
  none, some, ltb, leb, if◌then◌else◌, length, drop, keep_if, get, put, retain, string_eq,
}

pub record Limiter : Type 0 where
  pub limit : ℕ
  pub window : ℕ
  pub hits : List (String × List ℕ)

-- `newRateLimiter`
unfoldable pub new_limiter : ℤ → ℕ → Limiter
new_limiter limit window = record {
  limit = if leb_ℤ limit (pos 0) then 10 else pos_part limit;
  window = window;
  hits = [];
}

-- After the cutoff `now - window`.
abbrev pub recent : ℕ → ℕ → ℕ → Bool
recent window now t = ltb now (t + window)

abbrev pub instants : Option (List ℕ) → List ℕ
instants none = []
instants (some l) = l

-- The slice that the map still has, after the kept hits were written over its front.
abbrev pub overwritten :
    ℕ → ℕ → Option (List ℕ) → String → List (String × List ℕ) → List (String × List ℕ)
overwritten window now none key hits = hits
overwritten window now (some old) key hits =
    let kept = keep_if (recent window now) old in put key (kept ++ drop (length kept) old) hits

-- What is left to wait, from the first of the kept hits.
abbrev pub wait_from : ℕ → ℕ → List ℕ → ℕ
wait_from window now [] = 0
wait_from window now (t ∷ l) = t + window - now

abbrev pub last_before : ℕ → ℕ → List ℕ → Bool
last_before window now [] = true
last_before window now (t ∷ []) = ltb (t + window) now
last_before window now (t ∷ u ∷ l) = last_before window now (u ∷ l)

-- The bound on the number of keys: idle ones are deleted.
abbrev pub bounded : ℕ → ℕ → List (String × List ℕ) → List (String × List ℕ)
bounded window now hits =
    if ltb 1024 (length hits) then retain (λ key l. not (last_before window now l)) hits else hits

-- `allow`, with what the clock says.
unfoldable pub allow : Limiter → String → ℕ → Limiter × Bool × ℕ
allow l key now =
    let kept = keep_if (recent l.window now) (instants (get key l.hits)) in
    if leb l.limit (length kept)
    then (
      record l { hits = overwritten l.window now (get key l.hits) key l.hits },
      false,
      wait_from l.window now kept,
    )
    else (record l { hits = bounded l.window now (put key (kept ++ now ∷ []) l.hits) }, true, 0)
