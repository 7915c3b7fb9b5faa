-- ===== src/Anomaly/QuietHours.antt =====
-- internal/anomaly/rules.go: the quiet period of the day.
use i_pulse.Base.{
  ℕ, ℤ, pos, ltb_ℤ, leb_ℤ, ltb, ◌+◌, ◌-◌, ◌%◌, ◌<◌, ◌≡◌, arith, Bool, false, ◌&&◌, ◌||◌,
  if◌then◌else◌,
}

pub record QuietHours : Type 0 where
  pub start : ℤ
  pub end : ℤ

-- `Contains`, of an instant at the hour `h` of its day.
unfoldable pub contains : QuietHours → ℕ → Bool
contains q h =
    if leb_ℤ q.start q.end && leb_ℤ q.end q.start
    then false
    else if ltb_ℤ q.start q.end
    then leb_ℤ q.start (pos h) && ltb_ℤ (pos h) q.end
    else leb_ℤ q.start (pos h) || ltb_ℤ (pos h) q.end

-- For hours of the day, the quiet period holds an hour exactly when the clock, counted on from the start
-- of the period, reaches that hour before its end, past midnight or not; from an hour to itself it is
-- empty.
pub contains_on_clock :
    (from to h : ℕ)
    → from < 24
    → to < 24
    → h < 24
    → contains (record { start = pos from; end = pos to }) h
      ≡ ltb ((h + 24 - from) % 24) ((to + 24 - from) % 24)
unfolding contains
contains_on_clock from to h a b c = ground arith
