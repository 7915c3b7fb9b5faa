-- ===== src/Anomaly/Sustained/Telling.antt =====
-- internal/anomaly/rules.go: which findings the sustained rule gives for a dimension, and what each of
-- them tells.
use mathlib.Core.Path.{subst}
use i_pulse.Base.{
  ℕ, pos, leb_ℤ, ltb_ℤ, sub_ℕ, ◌<◌, ◌≡◌, ◌⊎◌, refl, ap, sym, ◌∙◌, Bool, true, false, not, List, [],
  ◌∷◌, String, Option, none, some, arith, Bool-cases, inl, inr, if◌then◌else◌, ◌==◌, All, Floats,
}
use i_pulse.Anomaly.Sustained.{
  SustainedState, SustainedRule, SustainedFinding, at_rest, take_sample, waits, ending, ongoing,
  drop_below, stay_above, observe_sample,
}
use i_pulse.Anomaly.Sustained.Streaks.{
  run, streak, newest, IsLater, Follows, Tells, run-Follows, ending-Tells, ongoing-Tells,
  sample-Follows, streak-IsLater, start-positive,
}

abbrev noted {ℓ} : {A : Type ℓ} → Option A → List A → List A
noted none xs = xs
noted (some x) xs = x ∷ xs

module _ {F : Type 0} ⦃fl : Floats F⦄ (r : SustainedRule F) (dimension : String) where
  -- The findings of a dimension over its samples, the oldest first.
  unfoldable pub findings : SustainedState F → List (F × ℕ) → List (SustainedFinding F)
  findings st [] = []
  findings st ((value, now) ∷ xs) =
      let (next, finding) = observe_sample r dimension st value now in
      let rest = findings next xs in noted finding rest

  abbrev pub IsLong : SustainedFinding F → Type 0
  IsLong f = ltb_ℤ f.duration r.min_duration ≡ false

  -- Findings that begin with a start, or go on from one that was reported.
  unfoldable pub WellTold : Bool → List (SustainedFinding F) → Type 0
  WellTold known [] = Unit
  WellTold false (f ∷ fs) = (f.ended ≡ false) × IsLong f × WellTold true fs
  WellTold true (f ∷ fs) =
      ((f.ended ≡ true) × WellTold false fs)
      ⊎ ((f.ended ≡ false) × IsLong f × (leb_ℤ r.repeat (pos 0) ≡ false) × WellTold true fs)

  IsCoherent : SustainedState F → Type 0
  IsCoherent st = (st.since == 0) ≡ true → (st.reported == 0) ≡ true

  abbrev told : SustainedState F → Bool
  told st = not (st.reported == 0)

  sample-IsCoherent :
      (st : SustainedState F) (value : F) (now reported : ℕ)
      → 0 < now
      → IsCoherent (record (take_sample st value now) { reported = reported })
  unfolding take_sample IsCoherent
  sample-IsCoherent st value now reported later = λ e. ground (arith, e)

  due_now :
      (st : SustainedState F) (now : ℕ)
      → waits r st now ≡ false
      → (ltb_ℤ (sub_ℕ now st.since) r.min_duration ≡ false)
        × ((st.reported == 0) ≡ false → leb_ℤ r.repeat (pos 0) ≡ false)
  unfolding waits
  due_now st now due = (ground (arith, due), λ again. ground (arith, due, again))

  below-WellTold :
      (st : SustainedState F) (xs : List (F × ℕ))
      → WellTold (told st) (findings st xs)
      → WellTold false (findings at_rest xs)
      → let (next, finding) = drop_below r dimension st in
        let rest = findings next xs in WellTold (told st) (noted finding rest)
  unfolding drop_below WellTold
  below-WellTold st xs on anew = elim (Bool-cases (st.since == 0)) [
    | inl idle ↦ simp idle on
    | inr away ↦ elim (Bool-cases (st.reported == 0)) [
      | inl quiet ↦ simp (away, quiet) anew
      | inr known ↦ simp (away, known) (inl (refl, anew))
    ]
  ]

  above-WellTold :
      (st : SustainedState F) (now : ℕ) (xs : List (F × ℕ))
      → WellTold (told st) (findings st xs)
      → WellTold true (findings (record st { reported = now }) xs)
      → let (next, finding) = stay_above r dimension st now in
        let rest = findings next xs in WellTold (told st) (noted finding rest)
  unfolding stay_above WellTold
  above-WellTold st now xs on anew = elim (Bool-cases (waits r st now)) [
    | inl quiet ↦ simp quiet on
    | inr due ↦ elim (Bool-cases (st.reported == 0)) [
      | inl first ↦ simp (due, first) (refl, (due_now st now due).0, anew)
      | inr again ↦
          let (long, repeats) = due_now st now due in
          simp (due, again) (inr (refl, long, repeats again, anew))
    ]
  ]

  above_anew :
      (st : SustainedState F) (now : ℕ) (xs : List (F × ℕ))
      → WellTold (not (now == 0)) (findings (record st { reported = now }) xs)
      → 0 < now
      → WellTold true (findings (record st { reported = now }) xs)
  above_anew st now xs h positive =
      let known : not (now == 0) ≡ true = ground arith in
      subst (λ b. WellTold b (findings (record st { reported = now }) xs)) known h

  findings-WellTold :
      (xs : List (F × ℕ)) (st : SustainedState F)
      → All IsLater xs
      → IsCoherent st
      → WellTold (told st) (findings st xs)
  unfolding findings observe_sample WellTold IsCoherent take_sample
  findings-WellTold [] st later sound = tt
  findings-WellTold ((value, now) ∷ xs) st (positive, later) sound =
      elim (Bool-cases (fl.lt value r.floor)) [
        | inl low ↦ simp low (
            below-WellTold st xs (findings-WellTold xs st later sound)
              (findings-WellTold xs at_rest later (λ e. refl)))
        | inr high ↦
            let taken = take_sample st value now in
            simp high (
              above-WellTold taken now xs
                (findings-WellTold xs taken later
                  (sample-IsCoherent st value now st.reported positive))
                (above_anew taken now xs
                  (findings-WellTold xs (record taken { reported = now }) later
                    (sample-IsCoherent st value now now positive))
                  positive))
      ]

  -- Over any samples of a dimension, from rest and at instants after the zero time: every end that is
  -- reported was preceded by a report of its start, after an end comes a start, a report of the ongoing
  -- condition comes only after at least the minimum duration, and a second one without an end in between
  -- only if the rule repeats its reports.
  pub findings_lem : (xs : List (F × ℕ)) → All IsLater xs → WellTold false (findings at_rest xs)
  unfolding IsCoherent
  findings_lem xs later = findings-WellTold xs at_rest later (λ e. refl)

  end-Tells :
      (st : SustainedState F) (s : List (F × ℕ)) (f : SustainedFinding F)
      → Follows st s
      → All IsLater s
      → (drop_below r dimension st).1 ≡ some f
      → (f.ended ≡ true) × Tells f s (newest s)
  unfolding drop_below
  end-Tells st [] f h later e =
      let idle : (st.since == 0) ≡ true = ap (λ n. n == 0) h.since in
      let nothing : (drop_below r dimension st).1 ≡ none = simp idle refl in
      absurd (cc (sym nothing ∙ e))
  end-Tells st (x ∷ s) f h later e =
      let away : (st.since == 0) ≡ false = ap (λ n. n == 0) h.since ∙ start-positive x s later in
      elim (Bool-cases (st.reported == 0)) [
        | inl untold ↦
            let nothing : (drop_below r dimension st).1 ≡ none = simp (away, untold) refl in
            absurd (cc (sym nothing ∙ e))
        | inr known ↦
            let it : (drop_below r dimension st).1 ≡ some (ending r dimension st) =
              simp (away, known) refl in
            let is : ending r dimension st ≡ f = cc (sym it ∙ e) in
            subst (λ f. (f.ended ≡ true) × Tells f (x ∷ s) (newest (x ∷ s))) is
              (refl, ending-Tells r dimension st x s h)
      ]

  start-Tells :
      (st : SustainedState F) (x : F × ℕ) (s : List (F × ℕ)) (now : ℕ) (f : SustainedFinding F)
      → Follows st (x ∷ s)
      → (stay_above r dimension st now).1 ≡ some f
      → (f.ended ≡ false) × Tells f (x ∷ s) now
  unfolding stay_above
  start-Tells st x s now f h e = elim (Bool-cases (waits r st now)) [
    | inl quiet ↦
        let nothing : (stay_above r dimension st now).1 ≡ none = simp quiet refl in
        absurd (cc (sym nothing ∙ e))
    | inr due ↦
        let it : (stay_above r dimension st now).1 ≡ some (ongoing r dimension st now) =
          simp due refl in
        let is : ongoing r dimension st now ≡ f = cc (sym it ∙ e) in
        subst (λ f. (f.ended ≡ false) × Tells f (x ∷ s) now) is
          (refl, ongoing-Tells r dimension st x s now h)
  ]

  -- Whatever samples came before, from rest and at instants after the zero time, a finding at a sample
  -- tells of a whole streak of samples that are not below the floor, with their average, peak, number and
  -- duration: an end, which only a sample below the floor gives, of the streak before that sample up to
  -- its newest sample; any other finding of the streak with that sample, up to now.
  pub observe_sample-Tells :
      (xs : List (F × ℕ)) (value : F) (now : ℕ) (f : SustainedFinding F)
      → All IsLater ((value, now) ∷ xs)
      → (observe_sample r dimension (run r dimension xs) value now).1 ≡ some f
      → let s = streak r dimension xs in
        (f.ended ≡ fl.lt value r.floor)
        × Tells f
            (if fl.lt value r.floor then s else (value, now) ∷ s)
            (if fl.lt value r.floor then newest s else now)
  unfolding observe_sample
  observe_sample-Tells xs value now f (positive, later) e =
      let st = run r dimension xs in
      let h = run-Follows r dimension xs later in
      let s_later = streak-IsLater r dimension xs later in
      elim (Bool-cases (fl.lt value r.floor)) [
        | inl low ↦
            let here : (observe_sample r dimension st value now).1 ≡ (drop_below r dimension st).1 =
              simp low refl in
            let it : (drop_below r dimension st).1 ≡ some f = sym here ∙ e in
            simp low (end-Tells st (streak r dimension xs) f h s_later it)
        | inr high ↦
            let at = take_sample st value now in
            let here : (observe_sample r dimension st value now).1
                ≡ (stay_above r dimension at now).1 =
              simp high refl in
            let it : (stay_above r dimension at now).1 ≡ some f = sym here ∙ e in
            let taken = sample-Follows st (streak r dimension xs) value now h s_later in
            simp high (
              start-Tells (take_sample st value now) (value, now) (streak r dimension xs) now f
                taken it)
      ]
