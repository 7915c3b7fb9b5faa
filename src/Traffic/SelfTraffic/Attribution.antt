-- ===== src/Traffic/SelfTraffic/Attribution.antt =====
-- internal/traffic/selftraffic.go: what `Between` attributes to a window.
use i_pulse.Base.{
  ℕ, ◌+◌, ◌-◌, ◌≤◌, ◌<◌, ◌^◌, ◌≡◌, refl, Bool, false, List, [], ◌∷◌, ◌++◌, arith, All, All-append,
  keep_if, Bool-cases, inl, inr, ltb,
}
use i_pulse.Traffic.SelfTraffic.{
  Transfer, SelfTraffic, record_transfer, overlap, any_overlap, active, share, sum_between, between,
  ends_after,
}
use i_pulse.Traffic.SelfTraffic.Overlap.{overlap-Meets}

-- A transfer that does not end before it starts, with counts that a float64 holds exactly.
abbrev pub IsPlain : Transfer → Type 0
IsPlain w = (w.start ≤ w.end) × (w.rx < 2 ^ 53) × (w.tx < 2 ^ 53)

All-keep_if {ℓ κ} :
    {A : Type ℓ} (P : A → Type κ) (p : A → Bool) (xs : List A) → All P xs → All P (keep_if p xs)
All-keep_if P p [] h = h
All-keep_if P p (x ∷ xs) h = ground (arith, All-keep_if P p xs h.1)

pub record_transfer-IsPlain :
    (s : SelfTraffic) (now : ℕ) (w : Transfer)
    → All IsPlain s.windows
    → w.rx < 2 ^ 53
    → w.tx < 2 ^ 53
    → All IsPlain (record_transfer s now w).windows
unfolding record_transfer
record_transfer-IsPlain s now w h r t = elim (Bool-cases (ltb w.end w.start)) [
  | inl bad ↦ rw bad h
  | inr good ↦ ground (
    arith,
    All-keep_if IsPlain (ends_after now s.retained) (s.windows ++ w ∷ [])
        (All-append IsPlain s.windows (w ∷ []) h ((ground arith, r, t), tt)),
  )
]

-- All that was recorded.
pub total : List Transfer → ℕ × ℕ
total [] = (0, 0)
total (w ∷ ws) = let rest = total ws in (w.rx + rest.0, w.tx + rest.1)

-- IEEE 754: below 2 ^ 53 the count is exact, a quotient of a part by its whole is at most 1, and a
-- product with it rounds to at most the count.
module _ (scale : ℕ → ℕ → ℕ → ℕ)
    (scale-le : (bytes part whole : ℕ)
      → bytes < 2 ^ 53
      → part ≤ whole
      → scale bytes part whole ≤ bytes) where
  share-le :
      (from to : ℕ) (w : Transfer) (bytes : ℕ)
      → w.start ≤ w.end
      → bytes < 2 ^ 53
      → share scale from to w bytes ≤ bytes
  unfolding share
  share-le from to w bytes h b = ground (
    arith,
    overlap-Meets from to w h,
    scale-le bytes (overlap from to w.start w.end) (w.end - w.start) b,
  )

  sum_between-le :
      (from to : ℕ) (ws : List Transfer)
      → All IsPlain ws
      → ((sum_between scale from to ws).0 ≤ (total ws).0)
        × ((sum_between scale from to ws).1 ≤ (total ws).1)
  unfolding sum_between total
  sum_between-le from to [] h = omega arith
  sum_between-le from to (w ∷ ws) h = omega (
    arith,
    share-le from to w w.rx h.0.0 h.0.1,
    share-le from to w w.tx h.0.0 h.0.2,
    sum_between-le from to ws h.1,
  )

  sum_between_idle :
      (from to : ℕ) (ws : List Transfer)
      → any_overlap from to ws ≡ false
      → sum_between scale from to ws ≡ (0, 0)
  unfolding sum_between any_overlap share
  sum_between_idle from to [] h = refl
  sum_between_idle from to (w ∷ ws) h = ground (arith, sum_between_idle from to ws)

  -- iPulse never subtracts more than it transferred, and nothing while it was idle: with plain
  -- records, what a window is attributed is at most all that was recorded, in both directions, and
  -- is nothing in a window in which no transfer was active.
  pub between_bounded :
      (s : SelfTraffic) (from to : ℕ)
      → All IsPlain s.windows
      → ((between scale s from to).0 ≤ (total s.windows).0)
        × ((between scale s from to).1 ≤ (total s.windows).1)
        × (active s from to ≡ false → between scale s from to ≡ (0, 0))
  unfolding between active
  between_bounded s from to h =
      ground (arith, sum_between-le from to s.windows h, sum_between_idle from to s.windows)
