-- ===== src/Correlation/Engine/Cooldown.antt =====
-- internal/correlation/engine.go: a rule that has fired rests for its cooldown.
use mathlib.Core.Path.{subst}
use i_pulse.Base.{
  ℕ, ℤ, pos, ◌≤◌, ◌≤ℤ◌, leb_ℤ, sub_ℕ, ◌&&◌, ◌≡◌, refl, ap, sym, ◌∙◌, inl, inr, true, List, [], ◌∷◌,
  String, Option, none, some, if◌then◌else◌, Bool-cases, Option-cases, All, get, get-put,
  get-put_self, string_eq, arith,
}
use i_pulse.Correlation.Window.{is_event, snapshot, trim}
use i_pulse.Correlation.View.{View, new_view}
use i_pulse.Correlation.Engine.{
  Engine, Rule, Match, observe, evaluate, set_enabled, mem_code, first_match, cooldown_elapsed,
  mark_fired, elapsed, match_of, gather,
}
use i_pulse.Correlation.Engine.First.{first_match_blocked, first_match_fires, evaluate_on, view_at}
use i_pulse.Correlation.Engine.Calls.{
  Call, signalled, evaluated, switched, step, run_calls, evaluate_state,
}

rest :
    (cooldown : ℤ) (t now u : ℕ)
    → pos 1 ≤ℤ cooldown
    → t ≤ u
    → (if leb_ℤ cooldown (pos 0) then true else elapsed cooldown now (some u)) ≡ true
    → cooldown ≤ℤ sub_ℕ now t
rest cooldown t now u cooled since h = ground arith

module _ {F : Type 0} where
  -- No evaluation before the instant.
  abbrev pub NotBefore : ℕ → Call F → Type 0
  NotBefore t (signalled now s) = Unit
  NotBefore t (evaluated now) = t ≤ now
  NotBefore t (switched v) = Unit

  -- The rules of this name have fired at the instant or since.
  abbrev FiredSince : ℕ → String → Engine F → Type 0
  FiredSince t name e = (u : ℕ) × (get name e.last_fired ≡ some u) × (t ≤ u)

  mark_fired-FiredSince :
      (t now : ℕ) (name : String) (e : Engine F) (found : Option (Match F))
      → t ≤ now
      → FiredSince t name e
      → FiredSince t name (mark_fired e now found)
  mark_fired-FiredSince t now name e none le h = h
  mark_fired-FiredSince t now name e (some m) le (u, at, since) =
      let new = get-put m.rule.name name now e.last_fired in
      elim (Bool-cases (string_eq.beq m.rule.name name)) [
        | inl same ↦ (now, new ∙ rw same refl, le)
        | inr other ↦ (u, new ∙ rw other at, since)
      ]

  step-FiredSince :
      (upper : String → String) (t : ℕ) (name : String) (e : Engine F) (c : Call F)
      → NotBefore t c
      → FiredSince t name e
      → FiredSince t name (step upper e c)
  unfolding observe evaluate set_enabled
  step-FiredSince upper t name e (signalled now s) le h =
      elim (Bool-cases (is_event s.kind && mem_code s.code e.conclusions)) [
        | inl own ↦ rw own h
        | inr other ↦ rw other h
      ]
  step-FiredSince upper t name e (evaluated now) le h = elim (Bool-cases e.enabled) [
    | inl on ↦
        let w = trim e.window now in
        subst (FiredSince t name) (sym (evaluate_state upper e now on)) (
          mark_fired-FiredSince t now name (record e { window = w })
            (first_match e (new_view upper now w.signals) now e.rules) le h)
    | inr off ↦ rw off h
  ]
  step-FiredSince upper t name e (switched v) le h = h

  run_calls-FiredSince :
      (upper : String → String) (t : ℕ) (name : String) (e : Engine F) (cs : List (Call F))
      → All (NotBefore t) cs
      → FiredSince t name e
      → FiredSince t name (run_calls upper e cs)
  unfolding run_calls
  run_calls-FiredSince upper t name e [] le h = h
  run_calls-FiredSince upper t name e (c ∷ cs) le h =
      run_calls-FiredSince upper t name (step upper e c) cs le.1
        (step-FiredSince upper t name e c le.0 h)

  -- What the match is of has cooled down.
  first_match-ready :
      (e : Engine F) (v : View F) (now : ℕ) (rs : List (Rule F)) (m : Match F)
      → first_match e v now rs ≡ some m
      → cooldown_elapsed e m.rule now ≡ true
  unfolding first_match match_of
  first_match-ready e v now [] m h = absurd (cc h)
  first_match-ready e v now (r ∷ rs) m h = elim (Bool-cases (cooldown_elapsed e r now)) [
    | inl ready ↦ elim (Option-cases (gather v r.requires)) [
      | inl g ↦ first_match-ready e v now rs m (sym (first_match_blocked e v now r rs (inr g)) ∙ h)
      | inr (ds, g) ↦
          let same : match_of v now r ds ≡ m =
            cc (sym (first_match_fires e v now r rs ds ready g) ∙ h) in
          ap (λ x. cooldown_elapsed e x.rule now) (sym same) ∙ ready
    ]
    | inr waits ↦
        first_match-ready e v now rs m (sym (first_match_blocked e v now r rs (inl waits)) ∙ h)
  ]

  -- What an evaluation reports, of an engine that was enabled.
  evaluate_found :
      (upper : String → String) (e : Engine F) (now : ℕ) (m : Match F)
      → (evaluate upper e now).1 ≡ some m
      → (cooldown_elapsed e m.rule now ≡ true)
        × (get m.rule.name (evaluate upper e now).0.last_fired ≡ some now)
  unfolding evaluate snapshot
  evaluate_found upper e now m h = elim (Bool-cases e.enabled) [
    | inl on ↦
        let found = sym (evaluate_on upper e now on) ∙ h in
        let w = trim e.window now in
        (
          first_match-ready e (view_at upper e now) now e.rules m found,
          ap (λ x. get m.rule.name x.last_fired) (evaluate_state upper e now on)
              ∙ ap (λ o. get m.rule.name (mark_fired (record e { window = w }) now o).last_fired)
                  found
              ∙ get-put_self m.rule.name now e.last_fired,
        )
    | inr off ↦
        let gone : (evaluate upper e now).1 ≡ none = rw off refl in absurd (cc (sym gone ∙ h))
  ]

  still_resting :
      (e : Engine F) (r : Rule F) (t now : ℕ)
      → pos 1 ≤ℤ r.cooldown
      → FiredSince t r.name e
      → cooldown_elapsed e r now ≡ true
      → r.cooldown ≤ℤ sub_ℕ now t
  unfolding cooldown_elapsed
  still_resting e r t now cooled (u, at, since) ready =
      let read : (if leb_ℤ r.cooldown (pos 0) then true else elapsed r.cooldown now (some u))
          ≡ true =
        ap (λ o. if leb_ℤ r.cooldown (pos 0) then true else elapsed r.cooldown now o) (sym at)
        ∙ ready in
      rest r.cooldown t now u cooled since read

  -- A rule that has fired rests: when an evaluation at t reports a match, then after any calls whose
  -- evaluations are not before t, a match of a rule of the same name that has a positive cooldown is
  -- reported only if that cooldown has passed since t.
  pub evaluate-rests :
      (upper : String → String) (e : Engine F) (t : ℕ) (m : Match F) (cs : List (Call F)) (now : ℕ)
      (again : Match F)
      → (evaluate upper e t).1 ≡ some m
      → All (NotBefore t) cs
      → (evaluate upper (run_calls upper (evaluate upper e t).0 cs) now).1 ≡ some again
      → again.rule.name ≡ m.rule.name
      → pos 1 ≤ℤ again.rule.cooldown
      → again.rule.cooldown ≤ℤ sub_ℕ now t
  evaluate-rests upper e t m cs now again fired later repeated same cooled =
      let then_on = (evaluate upper e t).0 in
      let since : FiredSince t m.rule.name then_on =
        (t, (evaluate_found upper e t m fired).1, omega arith) in
      still_resting (run_calls upper then_on cs) again.rule t now cooled
        (subst (λ name. FiredSince t name (run_calls upper then_on cs)) (sym same)
          (run_calls-FiredSince upper t m.rule.name then_on cs later since))
        (evaluate_found upper (run_calls upper then_on cs) now again repeated).0
