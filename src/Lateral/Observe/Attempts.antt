-- ===== src/Lateral/Observe/Attempts.antt =====
-- internal/lateral/detector.go: which attempts are tracked of a process.
use i_pulse.Base.{
  ◌≡◌, refl, ap, sym, ◌∙◌, ◌||◌, List, [], ◌∷◌, ◌++◌, String, none, some, ◌==◌, if◌then◌else◌, get,
  get-put, string_eq, Bool-cases, Option-cases, inl, inr,
}
use i_pulse.Lateral.State.{Detector, Observation, Attempt}
use i_pulse.Lateral.Observe.{
  allowed, observe_one, observe_all, name_of, fold_into, or_empty, empty_process,
}
use i_pulse.Lateral.Observe.Tracking.{allowed-observe_one}

append_nil : (a : List Attempt) → a ++ [] ≡ a
append_nil [] = refl
append_nil (x ∷ a) = ap (λ l. x ∷ l) (append_nil a)

append_assoc : (a b c : List Attempt) → a ++ b ++ c ≡ a ++ (b ++ c)
append_assoc [] b c = refl
append_assoc (x ∷ a) b c = ap (λ l. x ∷ l) (append_assoc a b c)

abbrev pub attempts_of : Detector → String → List Attempt
attempts_of d name = (or_empty empty_process (get name d.tracked)).attempts

module _ (lower trimmed : String → String) where
  -- The attempt that an observation is for a process: it has a valid host and a port, the process is not
  -- approved, and this is its name.
  unfoldable pub attempt_for : Detector → String → Observation → List Attempt
  attempt_for d name o = elim o.host [
    | none ↦ []
    | some host ↦
        if o.port == 0 || allowed lower trimmed d o.process
        then []
        else if string_eq.beq (name_of o.process) name
        then record { at = o.time; host = host; port = o.port; failed = o.failed } ∷ []
        else []
  ]

  -- Those of a batch of observations, in its order.
  unfoldable pub attempts_for : Detector → String → List Observation → List Attempt
  attempts_for d name [] = []
  attempts_for d name (o ∷ os) = attempt_for d name o ++ attempts_for d name os

  attempts_of-observe_one :
      (d : Detector) (name : String) (o : Observation)
      → attempts_of (observe_one lower trimmed d o) name
        ≡ attempts_of d name ++ attempt_for d name o
  unfolding observe_one attempt_for fold_into
  attempts_of-observe_one d name o = elim (Option-cases o.host) [
    | inl invalid ↦ rw invalid (sym (append_nil (attempts_of d name)))
    | inr (host, valid) ↦ elim (Bool-cases (o.port == 0 || allowed lower trimmed d o.process)) [
      | inl skipped ↦ rw (valid, skipped) (sym (append_nil (attempts_of d name)))
      | inr taken ↦
          let own = name_of o.process in
          let st = fold_into (or_empty empty_process (get own d.tracked)) host o in
          let found =
            ap (λ p. (or_empty empty_process p).attempts) (get-put own name st d.tracked) in
          elim (Bool-cases (string_eq.beq own name)) [
            | inl same ↦
                let is = (string_eq.beq_iff own name).0 same in
                rw (valid, taken, same)
                  (found
                    ∙ rw same (
                        ap
                          (λ n.
                            attempts_of d n
                            ++ record { at = o.time; host = host; port = o.port; failed = o.failed }
                              ∷ [])
                          is))
            | inr other ↦
                rw (valid, taken, other) (found ∙ rw other (sym (append_nil (attempts_of d name))))
          ]
    ]
  ]

  attempt_for-observe_one :
      (d : Detector) (name : String) (o p : Observation)
      → attempt_for (observe_one lower trimmed d o) name p ≡ attempt_for d name p
  unfolding attempt_for
  attempt_for-observe_one d name o p =
      let same = allowed-observe_one lower trimmed d o p.process in
      elim (Option-cases p.host) [
        | inl invalid ↦ rw invalid refl
        | inr (host, valid) ↦ rw (valid, same) refl
      ]

  attempts_for-observe_one :
      (d : Detector) (name : String) (o : Observation) (os : List Observation)
      → attempts_for (observe_one lower trimmed d o) name os ≡ attempts_for d name os
  unfolding attempts_for
  attempts_for-observe_one d name o [] = refl
  attempts_for-observe_one d name o (p ∷ os) =
      ap (λ l. l ++ attempts_for (observe_one lower trimmed d o) name os)
        (attempt_for-observe_one d name o p)
      ∙ ap (λ l. attempt_for d name p ++ l) (attempts_for-observe_one d name o os)

  pub attempts_of-observe_all :
      (d : Detector) (name : String) (os : List Observation)
      → attempts_of (observe_all lower trimmed d os) name
        ≡ attempts_of d name ++ attempts_for d name os
  unfolding observe_all attempts_for
  attempts_of-observe_all d name [] = sym (append_nil (attempts_of d name))
  attempts_of-observe_all d name (o ∷ os) =
      attempts_of-observe_all (observe_one lower trimmed d o) name os
      ∙ ap (λ l. attempts_of (observe_one lower trimmed d o) name ++ l)
          (attempts_for-observe_one d name o os)
      ∙ ap (λ l. l ++ attempts_for d name os) (attempts_of-observe_one d name o)
      ∙ append_assoc (attempts_of d name) (attempt_for d name o) (attempts_for d name os)
