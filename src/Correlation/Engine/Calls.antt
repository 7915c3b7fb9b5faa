-- ===== src/Correlation/Engine/Calls.antt =====
-- internal/correlation/engine.go: the engine over any sequence of calls.
use mathlib.Core.Path.{subst}
use i_pulse.Base.{
  ℕ, ℤ, ◌-◌, ◌≡◌, ◌≢◌, refl, ap, sym, ◌∙◌, ◌⊎◌, inl, inr, Bool, true, false, ◌&&◌, List, [], ◌∷◌,
  ◌++◌, String, Option, none, some, Bool-cases, All, All-append, All-drop, length, expire,
  string_eq, arith, if_not_on,
}
use i_pulse.Correlation.Window.{
  Signal, Window, is_event, add, trim, snapshot, new_window, signal_at, stamped, cut,
}
use i_pulse.Correlation.View.{new_view}
use i_pulse.Correlation.Engine.{
  Engine, Rule, Match, new_engine, observe, evaluate, set_enabled, mem_code, first_match,
  mark_fired, conclusions_of,
}

module _ (F : Type 0) where
  pub data Call : Type 0 where
    signalled : ℕ → Signal F → Call
    evaluated : ℕ → Call
    switched : Bool → Call

module _ {F : Type 0} (upper : String → String) where
  abbrev pub step : Engine F → Call F → Engine F
  step e (signalled now s) = observe e now s
  step e (evaluated now) = (evaluate upper e now).0
  step e (switched v) = set_enabled e v

  unfoldable pub run_calls : Engine F → List (Call F) → Engine F
  run_calls e [] = e
  run_calls e (c ∷ cs) = run_calls (step e c) cs

module _ {F : Type 0} where
  -- Not an event with one of the codes.
  abbrev IsForeign : List ℕ → Signal F → Type 0
  IsForeign codes s = (is_event s.kind && mem_code s.code codes) ≡ false

  All-expire :
      (P : Signal F → Type 0) (width now : ℕ) (l : List (Signal F))
      → All P l
      → All P (expire signal_at width now l)
  All-expire P width now [] h = tt
  All-expire P width now (s ∷ l) h = ground (arith, All-expire P width now l h.1)

  All-cut : (P : Signal F → Type 0) (max : ℕ) (l : List (Signal F)) → All P l → All P (cut max l)
  All-cut P max l h = ground (arith, All-drop P (length l - max) l h)

  All-trim :
      (P : Signal F → Type 0) (w : Window F) (now : ℕ)
      → All P w.signals
      → All P (trim w now).signals
  unfolding trim
  All-trim P w now h =
      All-cut P w.max (expire signal_at w.duration now w.signals)
        (All-expire P w.duration now w.signals h)

  All-add :
      (codes : List ℕ) (w : Window F) (now : ℕ) (s : Signal F)
      → All (IsForeign codes) w.signals
      → IsForeign codes s
      → All (IsForeign codes) (add w now s).signals
  unfolding add
  All-add codes w now s h new =
      let t = stamped now s in
      All-trim (IsForeign codes) (record w { signals = w.signals ++ t ∷ [] }) t.time
        (All-append (IsForeign codes) w.signals (t ∷ []) h (new, tt))

  -- The window holds no conclusion of the engine.
  abbrev Clean : List ℕ → Engine F → Type 0
  Clean codes e = (e.conclusions ≡ codes) × All (IsForeign codes) e.window.signals

  observe-Clean :
      (codes : List ℕ) (e : Engine F) (now : ℕ) (s : Signal F)
      → Clean codes e
      → Clean codes (observe e now s)
  unfolding observe
  observe-Clean codes e now s (same, clean) =
      elim (Bool-cases (is_event s.kind && mem_code s.code e.conclusions)) [
        | inl own ↦ rw own (same, clean)
        | inr other ↦
            let foreign : IsForeign codes s =
              ap (λ l. is_event s.kind && mem_code s.code l) (sym same) ∙ other in
            rw other (same, All-add codes e.window now s clean foreign)
      ]

  mark_fired-Clean :
      (codes : List ℕ) (e : Engine F) (now : ℕ) (m : Option (Match F))
      → Clean codes e
      → Clean codes (mark_fired e now m)
  mark_fired-Clean codes e now none h = h
  mark_fired-Clean codes e now (some m) h = h

  -- The engine after an evaluation.
  pub evaluate_state :
      (upper : String → String) (e : Engine F) (now : ℕ)
      → e.enabled ≡ true
      → let w = trim e.window now in
        (evaluate upper e now).0
        ≡ mark_fired
            (record e { window = w })
            now
            (first_match e (new_view upper now w.signals) now e.rules)
  unfolding evaluate snapshot
  evaluate_state upper e now on =
      ap {A = Engine F × Option (Match F)} (λ r. r.0) (if_not_on e.enabled (e, none) _ on)

  step-Clean :
      (upper : String → String) (codes : List ℕ) (e : Engine F) (c : Call F)
      → Clean codes e
      → Clean codes (step upper e c)
  unfolding evaluate snapshot set_enabled
  step-Clean upper codes e (signalled now s) h = observe-Clean codes e now s h
  step-Clean upper codes e (evaluated now) (same, clean) = elim (Bool-cases e.enabled) [
    | inl on ↦
        let w = trim e.window now in
        let found = first_match e (new_view upper now w.signals) now e.rules in
        subst (Clean codes) (sym (evaluate_state upper e now on)) (
          mark_fired-Clean codes (record e { window = w }) now found
            (same, All-trim (IsForeign codes) e.window now clean))
    | inr off ↦ rw off (same, clean)
  ]
  step-Clean upper codes e (switched v) h = h

  run_calls-Clean :
      (upper : String → String) (codes : List ℕ) (e : Engine F) (cs : List (Call F))
      → Clean codes e
      → Clean codes (run_calls upper e cs)
  unfolding run_calls
  run_calls-Clean upper codes e [] h = h
  run_calls-Clean upper codes e (c ∷ cs) h =
      run_calls-Clean upper codes (step upper e c) cs (step-Clean upper codes e c h)

  -- Neither an event nor with the conclusion of any of the rules.
  abbrev pub IsNoConclusion : List (Rule F) → Signal F → Type 0
  IsNoConclusion rules s = (is_event s.kind ≡ false) ⊎ All (λ r. s.code ≢ r.conclusion) rules

  mem_code-conclusions :
      (rules : List (Rule F)) (code : ℕ)
      → mem_code code (conclusions_of rules) ≡ false
      → All (λ r. code ≢ r.conclusion) rules
  unfolding mem_code conclusions_of
  mem_code-conclusions [] code h = tt
  mem_code-conclusions (r ∷ rs) code h =
      (λ e. ground arith, mem_code-conclusions rs code (ground arith))

  IsForeign-IsNoConclusion :
      (rules : List (Rule F)) (l : List (Signal F))
      → All (IsForeign (conclusions_of rules)) l
      → All (IsNoConclusion rules) l
  IsForeign-IsNoConclusion rules [] h = tt
  IsForeign-IsNoConclusion rules (s ∷ l) (one, rest) = (
    elim (Bool-cases (is_event s.kind)) [
      | inl ev ↦ inr (mem_code-conclusions rules s.code (ground arith))
      | inr quiet ↦ inl quiet
    ],
    IsForeign-IsNoConclusion rules l rest,
  )

  -- The engine never feeds on its own output: after any calls of a new engine, whatever is observed,
  -- no signal in the window is an event whose code is the conclusion of one of its rules.
  pub run_calls-IsNoConclusion :
      (upper : String → String) (window : ℤ) (rules : List (Rule F)) (cs : List (Call F))
      → All (IsNoConclusion rules) (run_calls upper (new_engine window rules) cs).window.signals
  unfolding new_engine new_window
  run_calls-IsNoConclusion upper window rules cs =
      IsForeign-IsNoConclusion rules (run_calls upper (new_engine window rules) cs).window.signals
        (run_calls-Clean upper (conclusions_of rules) (new_engine window rules) cs (refl, tt)).1
