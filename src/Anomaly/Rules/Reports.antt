-- ===== src/Anomaly/Rules/Reports.antt =====
-- internal/anomaly/rules.go: the findings of a rule for one dimension, against its condition in the gate.
use i_pulse.Base.{
  ℕ, pos, ◌+◌, ◌≤◌, ◌≡◌, refl, ap, ◌∙◌, Bool, true, false, not, ◌&&◌, List, [], ◌∷◌, String, Option,
  none, some, arith, inl, inr, Bool-cases, string_eq, ◌||◌, Floats,
}
use i_pulse.Anomaly.Gate.{Gate, GateState, Decision, cell, breach_cell, clear_cell, state}
use i_pulse.Anomaly.Gate.Keys.{observe_self, state-observe}
use i_pulse.Anomaly.Gate.Traces.{flag, step_balance, step_balance_once}
use i_pulse.Baseline.Engine.{Baseline, usable}
use i_pulse.Util.Stats.{nought}
use i_pulse.Anomaly.Rules.{
  Finding, Verdict, told_if, judge, gate_key, DeviationRule, ZScoreRule, deviation_verdict,
  z_score_verdict, evaluate_deviation, evaluate_z_score, reference,
}

one_kind :
    (g : Gate) (st : GateState) (b : Bool) (now : ℕ)
    → ((cell g st b now).1.fire && (cell g st b now).1.recovered) ≡ false
unfolding cell breach_cell clear_cell
one_kind g st true now = ground arith
one_kind g st false now = ground arith

module _ {F : Type 0} where
  abbrev pub counted : (Finding F → Bool) → Option (Finding F) → ℕ
  counted p none = 0
  counted p (some f) = flag (p f)

  -- A finding says of a decision whether it is a recovery.
  abbrev IsFrank : Verdict F → Type 0
  IsFrank none = Unit
  IsFrank (some (b, finding)) = (d : Decision) → (finding d).recovered ≡ d.recovered

  counted_told :
      (d : Decision) (finding : Decision → Finding F)
      → (finding d).recovered ≡ d.recovered
      → (d.fire && d.recovered) ≡ false
      → (counted (λ f. f.recovered) (told_if d finding) ≡ flag d.recovered)
        × (counted (λ f. not f.recovered) (told_if d finding) ≡ flag d.fire)
  counted_told d finding frank one = (ground (arith, frank, one), ground (arith, frank, one))

  judge-told :
      (g : Gate) (key : String) (b : Bool) (finding : Decision → Finding F) (now : ℕ)
      → (judge g key (some (b, finding)) now).1 ≡ told_if (cell g (state g key) b now).1 finding
  unfolding judge
  judge-told g key b finding now = ap (λ r. told_if r.1 finding) (observe_self g key b now)

  judge-state :
      (g : Gate) (key : String) (b : Bool) (finding : Decision → Finding F) (now : ℕ)
      → state (judge g key (some (b, finding)) now).0 key ≡ (cell g (state g key) b now).0
  unfolding judge
  judge-state g key b finding now =
      let at : string_eq.beq key key ≡ true = (string_eq.beq_iff key key).1 refl in
      state-observe g key key b now ∙ rw at refl

  judge-cooldown :
      (g : Gate) (key : String) (v : Verdict F) (now : ℕ)
      → (judge g key v now).0.cooldown ≡ g.cooldown
  unfolding judge
  judge-cooldown g key none now = refl
  judge-cooldown g key (some (b, finding)) now = ap (λ r. r.0.cooldown) (observe_self g key b now)

  told_balance :
      (g : Gate) (key : String) (v : Verdict F) (now : ℕ)
      → IsFrank v
      → let (h, told) = judge g key v now in
        (counted (λ f. f.recovered) told + flag (state h key).firing
          ≤ flag (state g key).firing + counted (λ f. not f.recovered) told)
        × (g.cooldown ≡ pos 0
            → counted (λ f. f.recovered) told + flag (state h key).firing
              ≡ flag (state g key).firing + counted (λ f. not f.recovered) told)
  unfolding judge
  told_balance g key none now frank = (omega arith, λ c. omega arith)
  told_balance g key (some (b, finding)) now frank =
      let st = state g key in
      let d = (cell g st b now).1 in
      let (ends, reports) = counted_told d finding (frank d) (one_kind g st b now) in
      let told = judge-told g key b finding now in
      let after = ap (λ s. flag s.firing) (judge-state g key b finding now) in
      let told_ends = ap (counted (λ f. f.recovered)) told ∙ ends in
      let told_reports = ap (counted (λ f. not f.recovered)) told ∙ reports in
      (
        omega (arith, after, told_ends, told_reports, step_balance g st b now),
        λ c. omega (arith, after, told_ends, told_reports, step_balance_once g st b now c),
      )

-- The gate after a sequence of calls, and how many of their findings pass a test.
module _ {F X : Type 0} (call : Gate → X → Gate × Option (Finding F)) where
  unfoldable pub after_calls : Gate → List X → Gate
  after_calls g [] = g
  after_calls g (x ∷ xs) = after_calls (call g x).0 xs

  unfoldable pub findings_that : (Finding F → Bool) → Gate → List X → ℕ
  findings_that p g [] = 0
  findings_that p g (x ∷ xs) = counted p (call g x).1 + findings_that p (call g x).0 xs

  abbrev pub reports : Gate → List X → ℕ
  reports g xs = findings_that (λ f. not f.recovered) g xs

  abbrev pub recovered : Gate → List X → ℕ
  recovered g xs = findings_that (λ f. f.recovered) g xs

  -- No more ends than reports, and without a cooldown the two alternate.
  abbrev pub Balanced : Gate → String → List X → Type 0
  Balanced g key xs =
      (recovered g xs + flag (state (after_calls g xs) key).firing
        ≤ flag (state g key).firing + reports g xs)
      × (g.cooldown ≡ pos 0
          → recovered g xs + flag (state (after_calls g xs) key).firing
            ≡ flag (state g key).firing + reports g xs)

module _ {F X : Type 0} (key : String) (verdict : X → Verdict F) (at : X → ℕ) where
  judge_all-Balanced :
      ((x : X) → IsFrank (verdict x))
      → (g : Gate) (xs : List X) → Balanced (λ g x. judge g key (verdict x) (at x)) g key xs
  unfolding after_calls findings_that
  judge_all-Balanced frank g [] = (omega arith, λ c. omega arith)
  judge_all-Balanced frank g (x ∷ xs) =
      let one = told_balance g key (verdict x) (at x) (frank x) in
      let rest = judge_all-Balanced frank (judge g key (verdict x) (at x)).0 xs in
      let same = judge-cooldown g key (verdict x) (at x) in
      (omega (arith, one.0, rest.0), λ c. omega (arith, one.1 c, rest.1 (same ∙ c)))

module _ {F : Type 0} ⦃fl : Floats F⦄ where
  deviation-IsFrank :
      (r : DeviationRule F) (b : Baseline F) (value : F) (dimension : String)
      → IsFrank (deviation_verdict r b value dimension)
  unfolding deviation_verdict
  deviation-IsFrank r b value dimension =
      elim (Bool-cases (not (usable b) || fl.le r.threshold_percent nought)) [
        | inl inert ↦ simp inert tt
        | inr live ↦ elim (Bool-cases (fl.le (reference r b) nought)) [
          | inl baseless ↦ simp (live, baseless) tt
          | inr based ↦ simp (live, based) (λ d. refl)
        ]
      ]

  z_score-IsFrank :
      (r : ZScoreRule F) (b : Baseline F) (value : F) (dimension : String)
      → IsFrank (z_score_verdict r b value dimension)
  unfolding z_score_verdict
  z_score-IsFrank r b value dimension =
      elim (Bool-cases (not (usable b) || fl.le r.threshold nought)) [
        | inl inert ↦ simp inert tt
        | inr live ↦ simp live (λ d. refl)
      ]

  -- The reports of a deviation rule: over any samples of a dimension, against any baselines, usable or
  -- not, it reports no end that no report precedes, each report having at most one end; and if its gate
  -- has no cooldown, reports and ends alternate.
  pub evaluate_deviation-Balanced :
      (r : DeviationRule F) (dimension : String) (g : Gate) (xs : List (Baseline F × F × ℕ))
      → Balanced
          (λ g x. evaluate_deviation r g x.0 x.1 dimension x.2)
          g
          (gate_key r.metric dimension)
          xs
  unfolding evaluate_deviation
  evaluate_deviation-Balanced r dimension g xs =
      judge_all-Balanced (gate_key r.metric dimension) (λ x. deviation_verdict r x.0 x.1 dimension)
        (λ x. x.2) (λ x. deviation-IsFrank r x.0 x.1 dimension) g xs

  -- The same of a z-score rule.
  pub evaluate_z_score-Balanced :
      (r : ZScoreRule F) (dimension : String) (g : Gate) (xs : List (Baseline F × F × ℕ))
      → Balanced
          (λ g x. evaluate_z_score r g x.0 x.1 dimension x.2)
          g
          (gate_key r.metric dimension)
          xs
  unfolding evaluate_z_score
  evaluate_z_score-Balanced r dimension g xs =
      judge_all-Balanced (gate_key r.metric dimension) (λ x. z_score_verdict r x.0 x.1 dimension)
        (λ x. x.2) (λ x. z_score-IsFrank r x.0 x.1 dimension) g xs
