-- ===== src/Traffic/SelfTraffic/Overlap.antt =====
-- internal/traffic/selftraffic.go: `overlapDuration` against the intervals that it measures.
use i_pulse.Base.{ℕ, ◌+◌, ◌-◌, ◌≤◌, ◌<◌, ◌≡◌, ◌↔◌, ◌⊎◌, arith}
use i_pulse.Traffic.SelfTraffic.{Transfer, overlap}

-- A transfer meets a query window: they share an instant, a transfer of no length being the instant
-- of its start and the window half open.
abbrev pub Meets : ℕ → ℕ → Transfer → Type 0
Meets from to w =
    ((w.start < w.end) × (w.start < to) × (from < w.end) × (from < to))
    ⊎ ((w.start ≡ w.end) × (from ≤ w.start) × (w.start < to))

-- For a transfer that does not end before it starts, the overlap is positive exactly when the
-- transfer meets the window, and it exceeds neither the window nor the transfer, 1 ns standing for
-- a transfer of no length.
pub overlap-Meets :
    (from to : ℕ) (w : Transfer)
    → w.start ≤ w.end
    → ((0 < overlap from to w.start w.end) ↔ Meets from to w)
      × (overlap from to w.start w.end ≤ to - from)
      × ((w.start < w.end) → overlap from to w.start w.end ≤ w.end - w.start)
unfolding overlap
overlap-Meets from to w h =
    ((λ p. ground arith, λ p. ground arith), ground arith, λ p. ground arith)

-- A transfer that straddles two sampling intervals is divided between them without loss or double
-- counting: its overlaps with two adjacent intervals add up to its overlap with both together.
pub overlap-split :
    (from mid to : ℕ) (w : Transfer)
    → from ≤ mid
    → mid ≤ to
    → w.start ≤ w.end
    → overlap from mid w.start w.end + overlap mid to w.start w.end ≡ overlap from to w.start w.end
unfolding overlap
overlap-split from mid to w h k l = ground arith
