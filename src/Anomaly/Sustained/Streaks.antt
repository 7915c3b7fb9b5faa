-- ===== src/Anomaly/Sustained/Streaks.antt =====
-- internal/anomaly/rules.go: what the sustained rule knows of a dimension, and what a finding tells,
-- against the present streak of samples that are not below the floor.
use i_pulse.Base.{
  ℕ, sub_ℕ, ◌<◌, ◌≡◌, refl, ap, ◌∙◌, true, false, List, [], ◌∷◌, String, arith, Bool-cases, inl,
  inr, if◌then◌else◌, ◌==◌, All, length, Floats,
}
use i_pulse.Anomaly.Sustained.{
  SustainedState, SustainedRule, SustainedFinding, at_rest, average, take_sample, waits, ending,
  ongoing, drop_below, stay_above, observe_sample,
}

module _ {F : Type 0} ⦃fl : Floats F⦄ where
  abbrev pub start : List (F × ℕ) → ℕ
  start [] = 0
  start ((value, now) ∷ []) = now
  start ((value, now) ∷ x ∷ xs) = start (x ∷ xs)

  abbrev pub newest : List (F × ℕ) → ℕ
  newest [] = 0
  newest ((value, now) ∷ xs) = now

  abbrev pub total : List (F × ℕ) → F
  total [] = fl.decimal 0 0
  total ((value, now) ∷ xs) = fl.add (total xs) value

  abbrev pub peak : List (F × ℕ) → F
  peak [] = fl.decimal 0 0
  peak ((value, now) ∷ xs) = if fl.lt (peak xs) value then value else peak xs

  pub record Follows (st : SustainedState F) (s : List (F × ℕ)) : Type 0 where
    pub since : st.since ≡ start s
    pub last : st.last ≡ newest s
    pub samples : st.samples ≡ length s
    pub total : st.total ≡ total s
    pub peak : st.peak ≡ peak s

  abbrev pub IsLater : F × ℕ → Type 0
  IsLater x = 0 < x.1

  pub start-positive :
      (x : F × ℕ) (s : List (F × ℕ)) → All IsLater (x ∷ s) → (start (x ∷ s) == 0) ≡ false
  start-positive x [] (h, more) = ground arith
  start-positive x (y ∷ s) (h, more) = start-positive y s more

  rest-Follows : Follows at_rest []
  rest-Follows = record { since = refl; last = refl; samples = refl; total = refl; peak = refl }

  sample-since :
      (st : SustainedState F) (s : List (F × ℕ)) (value : F) (now : ℕ)
      → st.since ≡ start s
      → All IsLater s
      → (take_sample st value now).since ≡ start ((value, now) ∷ s)
  unfolding take_sample
  sample-since st [] value now h later = rw h refl
  sample-since st (x ∷ s) value now h later = rw (h, start-positive x s later) refl

  pub sample-Follows :
      (st : SustainedState F) (s : List (F × ℕ)) (value : F) (now : ℕ)
      → Follows st s
      → All IsLater s
      → Follows (take_sample st value now) ((value, now) ∷ s)
  unfolding take_sample
  sample-Follows st s value now h later = record {
    since = sample-since st s value now h.since later;
    last = refl;
    samples = omega (arith, h.samples);
    total = ap (λ x. fl.add x value) h.total;
    peak = rw h.peak refl;
  }

  -- What a finding tells of a streak, up to an instant.
  pub record Tells (f : SustainedFinding F) (s : List (F × ℕ)) (until : ℕ) : Type 0 where
    pub average : f.average ≡ fl.div (total s) (fl.of_count (length s))
    pub peak : f.peak ≡ peak s
    pub samples : f.samples ≡ length s
    pub duration : f.duration ≡ sub_ℕ until (start s)

  average-Follows :
      (st : SustainedState F) (x : F × ℕ) (s : List (F × ℕ))
      → Follows st (x ∷ s)
      → average st ≡ fl.div (total (x ∷ s)) (fl.of_count (length (x ∷ s)))
  unfolding average
  average-Follows st x s h =
      let some_samples : (st.samples == 0) ≡ false = ground (arith, h.samples) in
      rw (some_samples, h.total, h.samples) refl

module _ {F : Type 0} ⦃fl : Floats F⦄ (r : SustainedRule F) (dimension : String) where
  -- The state after the samples, of which the newest is the first of the list.
  unfoldable pub run : List (F × ℕ) → SustainedState F
  run [] = at_rest
  run ((value, now) ∷ xs) = (observe_sample r dimension (run xs) value now).0

  -- The newest samples down to the last one below the floor.
  unfoldable pub streak : List (F × ℕ) → List (F × ℕ)
  streak [] = []
  streak ((value, now) ∷ xs) = if fl.lt value r.floor then [] else (value, now) ∷ streak xs

  above-Follows :
      (st : SustainedState F) (s : List (F × ℕ)) (now : ℕ)
      → Follows st s
      → Follows (stay_above r dimension st now).0 s
  unfolding stay_above
  above-Follows st s now h = elim (Bool-cases (waits r st now)) [
    | inl quiet ↦ rw quiet h
    | inr due ↦ rw due (record {
      since = h.since;
      last = h.last;
      samples = h.samples;
      total = h.total;
      peak = h.peak;
    })
  ]

  below-Follows :
      (st : SustainedState F) (s : List (F × ℕ))
      → Follows st s
      → All IsLater s
      → Follows (drop_below r dimension st).0 []
  unfolding drop_below
  below-Follows st [] h later =
      let idle : (st.since == 0) ≡ true = ap (λ n. n == 0) h.since in rw idle h
  below-Follows st (x ∷ s) h later =
      let away : (st.since == 0) ≡ false = ap (λ n. n == 0) h.since ∙ start-positive x s later in
      elim (Bool-cases (st.reported == 0)) [
        | inl untold ↦ rw (away, untold) rest-Follows
        | inr told ↦ rw (away, told) rest-Follows
      ]

  pub streak-IsLater : (xs : List (F × ℕ)) → All IsLater xs → All IsLater (streak xs)
  unfolding streak
  streak-IsLater [] later = later
  streak-IsLater ((value, now) ∷ xs) later = elim (Bool-cases (fl.lt value r.floor)) [
    | inl low ↦ rw low tt
    | inr high ↦ rw high (later.0, streak-IsLater xs later.1)
  ]

  -- From rest and at instants after the zero time, a dimension knows of its present streak exactly when
  -- it began, when its newest sample came, how many samples it has, their sum and their peak.
  pub run-Follows : (xs : List (F × ℕ)) → All IsLater xs → Follows (run xs) (streak xs)
  unfolding run streak observe_sample
  run-Follows [] later = rest-Follows
  run-Follows ((value, now) ∷ xs) later =
      let before = run-Follows xs later.1 in
      let s_later = streak-IsLater xs later.1 in
      elim (Bool-cases (fl.lt value r.floor)) [
        | inl low ↦
            rw (run, observe_sample, low) (below-Follows (run xs) (streak xs) before s_later)
        | inr high ↦
            let taken = sample-Follows (run xs) (streak xs) value now before s_later in
            rw (run, observe_sample, high)
              (above-Follows (take_sample (run xs) value now) ((value, now) ∷ streak xs) now taken)
      ]

  pub ending-Tells :
      (st : SustainedState F) (x : F × ℕ) (s : List (F × ℕ))
      → Follows st (x ∷ s)
      → Tells (ending r dimension st) (x ∷ s) (newest (x ∷ s))
  ending-Tells st x s h = record {
    average = average-Follows st x s h;
    peak = h.peak;
    samples = h.samples;
    duration = rw (h.last, h.since) refl;
  }

  pub ongoing-Tells :
      (st : SustainedState F) (x : F × ℕ) (s : List (F × ℕ)) (now : ℕ)
      → Follows st (x ∷ s)
      → Tells (ongoing r dimension st now) (x ∷ s) now
  ongoing-Tells st x s now h = record {
    average = average-Follows st x s h;
    peak = h.peak;
    samples = h.samples;
    duration = ap (sub_ℕ now) h.since;
  }
