-- ===== src/Lateral/Observe/Tracking.antt =====
-- internal/lateral/detector.go: what is tracked of a process.
use i_pulse.Base.{
  ◌≡◌, ◌≢◌, inl, inr, refl, ap, sym, ◌∙◌, true, false, ◌||◌, List, [], ◌∷◌, String, arith, ◌==◌,
  get, get-put, string_eq, Bool-cases, Option-cases,
}
use i_pulse.Lateral.State.{Detector, Observation}
use i_pulse.Lateral.Observe.{allowed, observe_one, observe_all, name_of, unattributed}

module _ (lower trimmed : String → String) where
  pub allowed-observe_one :
      (d : Detector) (o : Observation) (name : String)
      → allowed lower trimmed (observe_one lower trimmed d o) name ≡ allowed lower trimmed d name
  unfolding allowed observe_one
  allowed-observe_one d o name = elim (Option-cases o.host) [
    | inl invalid ↦ rw invalid refl
    | inr (host, valid) ↦ elim (Bool-cases (o.port == 0 || allowed lower trimmed d o.process)) [
      | inl skipped ↦ rw (valid, skipped) refl
      | inr counted ↦ rw (valid, counted) refl
    ]
  ]

  -- The name that an observation is counted under is not that of an approved process.
  counted_elsewhere :
      (d : Detector) (process name : String)
      → allowed lower trimmed d name ≡ true
      → name ≢ unattributed
      → allowed lower trimmed d process ≡ false
      → string_eq.beq (name_of process) name ≡ false
  counted_elsewhere d process name approved real counted =
      elim (Bool-cases (string_eq.beq (name_of process) name)) [
        | inr other ↦ other
        | inl same ↦
            let is = (string_eq.beq_iff (name_of process) name).0 same in
            elim (Bool-cases (string_eq.beq process "")) [
              | inl blank ↦
                  let placeholder : name_of process ≡ unattributed = rw blank refl in
                  absurd (real (sym is ∙ placeholder))
              | inr given ↦
                  let own : name_of process ≡ process = rw given refl in
                  let clash : false ≡ true =
                    sym counted ∙ ap (λ n. allowed lower trimmed d n) (sym own ∙ is) ∙ approved in
                  absurd (cc clash)
            ]
      ]

  observe_one-approved :
      (d : Detector) (o : Observation) (name : String)
      → allowed lower trimmed d name ≡ true
      → name ≢ unattributed
      → get name (observe_one lower trimmed d o).tracked ≡ get name d.tracked
  unfolding observe_one
  observe_one-approved d o name approved real = elim (Option-cases o.host) [
    | inl invalid ↦ rw invalid refl
    | inr (host, valid) ↦ elim (Bool-cases (o.port == 0 || allowed lower trimmed d o.process)) [
      | inl skipped ↦ rw (valid, skipped) refl
      | inr counted ↦
          let other = counted_elsewhere d o.process name approved real (ground arith) in
          rw (valid, counted) (get-put (name_of o.process) name _ d.tracked ∙ rw other refl)
    ]
  ]

  -- An approved scanner is never held against: whatever is observed, nothing is recorded of a
  -- process that the configuration allows, unless its name is the placeholder for unattributed
  -- connections.
  pub observe_all-approved :
      (d : Detector) (obs : List Observation) (name : String)
      → allowed lower trimmed d name ≡ true
      → name ≢ unattributed
      → get name (observe_all lower trimmed d obs).tracked ≡ get name d.tracked
  unfolding observe_all
  observe_all-approved d [] name approved real = refl
  observe_all-approved d (o ∷ obs) name approved real =
      observe_all-approved (observe_one lower trimmed d o) obs name
        (allowed-observe_one d o name ∙ approved) real
      ∙ observe_one-approved d o name approved real
