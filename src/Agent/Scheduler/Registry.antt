-- ===== src/Agent/Scheduler/Registry.antt =====
-- internal/agent/scheduler.go: what `Add` does to the registered tasks and their statistics.
use i_pulse.Base.{
  ◌≡◌, ◌≢◌, ◌↔◌, inl, inr, refl, ap, sym, ◌∙◌, false, List, [], ◌∷◌, ◌++◌, String, Option, none,
  some, arith, Bool-cases, Option-cases, if◌then◌else◌, string_eq,
}
use i_pulse.Agent.Scheduler.{Task, Scheduler, replace_task, add_named, add, is_nil}

module _ {W : Type 0} where
  -- The task of a name.
  unfoldable pub find_task : String → List (Task W) → Option (Task W)
  find_task n [] = none
  find_task n (u ∷ us) = if string_eq.beq u.name n then some u else find_task n us

  -- A task that stands behind one of the same name, and one that stands before one of another.
  hidden :
      (t u : Task W) (n : String) (o : Option (Task W))
      → u.name ≡ t.name
      → (if string_eq.beq t.name n then some t else o)
        ≡ (if string_eq.beq t.name n then some t else if string_eq.beq u.name n then some u else o)
  hidden t u n o same = elim (Bool-cases (string_eq.beq t.name n)) [
    | inl at ↦ rw at refl
    | inr off ↦
        let too : string_eq.beq u.name n ≡ false = ap (λ x. string_eq.beq x n) same ∙ off in
        rw (off, too) refl
  ]

  apart :
      (t u : Task W) (n : String) (o : Option (Task W))
      → string_eq.beq u.name t.name ≡ false
      → (if string_eq.beq u.name n then some u else if string_eq.beq t.name n then some t else o)
        ≡ (if string_eq.beq t.name n then some t else if string_eq.beq u.name n then some u else o)
  apart t u n o other = ground (
    arith,
    string_eq.beq_iff u.name n,
    string_eq.beq_iff t.name n,
    string_eq.beq_iff u.name t.name,
  )

  replace-find :
      (t : Task W) (n : String) (us vs : List (Task W))
      → replace_task t us ≡ some vs
      → find_task n vs ≡ (if string_eq.beq t.name n then some t else find_task n us)
  unfolding replace_task find_task
  replace-find t n [] vs h = absurd (cc h)
  replace-find t n (u ∷ us) vs h = elim (Bool-cases (string_eq.beq u.name t.name)) [
    | inl same ↦
        let first : replace_task t (u ∷ us) ≡ some (t ∷ us) = rw same refl in
        let is : t ∷ us ≡ vs = cc (sym first ∙ h) in
        ap (find_task n) (sym is)
        ∙ hidden t u n (find_task n us) ((string_eq.beq_iff u.name t.name).0 same)
    | inr other ↦ elim (Option-cases (replace_task t us)) [
      | inl missing ↦
          let gone : replace_task t (u ∷ us) ≡ none = rw (other, missing) refl in
          absurd (cc (sym gone ∙ h))
      | inr (ws, found) ↦
          let later : replace_task t (u ∷ us) ≡ some (u ∷ ws) = rw (other, found) refl in
          let is : u ∷ ws ≡ vs = cc (sym later ∙ h) in
          ap (find_task n) (sym is)
          ∙ ap (λ o. if string_eq.beq u.name n then some u else o) (replace-find t n us ws found)
          ∙ apart t u n (find_task n us) other
    ]
  ]

  missing-find :
      (t : Task W) (n : String) (us : List (Task W))
      → replace_task t us ≡ none
      → (find_task t.name us ≡ none)
        × (find_task n (us ++ t ∷ []) ≡ (if string_eq.beq t.name n then some t else find_task n us))
  unfolding replace_task find_task
  missing-find t n [] h = (refl, refl)
  missing-find t n (u ∷ us) h = elim (Bool-cases (string_eq.beq u.name t.name)) [
    | inl same ↦
        let first : replace_task t (u ∷ us) ≡ some (t ∷ us) = rw same refl in
        absurd (cc (sym first ∙ h))
    | inr other ↦ elim (Option-cases (replace_task t us)) [
      | inl missing ↦
          let rest = missing-find t n us missing in
          (
            rw other rest.0,
            ap (λ o. if string_eq.beq u.name n then some u else o) rest.1
                ∙ apart t u n (find_task n us) other,
          )
      | inr (ws, found) ↦
          let later : replace_task t (u ∷ us) ≡ some (u ∷ ws) = rw (other, found) refl in
          absurd (cc (sym later ∙ h))
    ]
  ]

  found-find :
      (t : Task W) (us vs : List (Task W))
      → replace_task t us ≡ some vs
      → find_task t.name us ≢ none
  unfolding replace_task find_task
  found-find t [] vs h = λ e. cc h
  found-find t (u ∷ us) vs h = elim (Bool-cases (string_eq.beq u.name t.name)) [
    | inl same ↦
        let here : find_task t.name (u ∷ us) ≡ some u = rw same refl in λ e. cc (sym here ∙ e)
    | inr other ↦ elim (Option-cases (replace_task t us)) [
      | inl missing ↦
          let gone : replace_task t (u ∷ us) ≡ none = rw (other, missing) refl in
          absurd (cc (sym gone ∙ h))
      | inr (ws, found) ↦
          let skip : find_task t.name (u ∷ us) ≡ find_task t.name us = rw other refl in
          λ e. found-find t us ws found (sym skip ∙ e)
    ]
  ]

  add_named-find :
      (s : Scheduler W) (t : Task W) (n : String)
      → find_task n (add_named s t).tasks
        ≡ (if string_eq.beq t.name n then some t else find_task n s.tasks)
  unfolding add_named
  add_named-find s t n = elim (Option-cases (replace_task t s.tasks)) [
    | inl missing ↦ rw (add_named, missing) (missing-find t n s.tasks missing).1
    | inr (vs, found) ↦ rw (add_named, found) (replace-find t n s.tasks vs found)
  ]

  add_ok : (s : Scheduler W) (t : Task W) → (add s t).1 ≡ none → (add s t).0 ≡ add_named s t
  unfolding add
  add_ok s t h = ground arith

  add_failed : (s : Scheduler W) (t : Task W) → (add s t).1 ≢ none → (add s t).0 ≡ s
  unfolding add
  add_failed s t h = ground arith

  -- `Add` on every branch: it succeeds exactly when the task has a name and a function and the
  -- scheduler has not started; a failure leaves the scheduler as it was; and after a success the name
  -- stands for the new task and every other name for the task that it stood for.
  pub add_lem :
      (s : Scheduler W) (t : Task W) (n : String)
      → (((add s t).1 ≡ none) ↔ ((t.name ≢ "") × (is_nil t.fn ≡ false) × (s.started ≡ false)))
        × ((add s t).1 ≢ none → (add s t).0 ≡ s)
        × ((add s t).1 ≡ none
            → find_task n (add s t).0.tasks
              ≡ (if string_eq.beq t.name n then some t else find_task n s.tasks))
  unfolding add
  add_lem s t n =
      let named = add_named-find s t n in
      let blank = string_eq.beq_iff t.name "" in
      (
        (λ h. ground (arith, blank), λ h. ground (arith, blank)),
        λ h. add_failed s t h,
        λ h. ap (λ x. find_task n x.tasks) (add_ok s t h) ∙ named,
      )

  -- Replacing a registered task leaves its statistics as they were, the interval of the replaced task
  -- included, whatever the interval of the new one is.
  pub add-stale_interval :
      (s : Scheduler W) (t u : Task W)
      → (add s t).1 ≡ none
      → find_task t.name s.tasks ≡ some u
      → (add s t).0.states ≡ s.states
  unfolding add_named
  add-stale_interval s t u h known = elim (Option-cases (replace_task t s.tasks)) [
    | inl missing ↦ absurd (cc (sym (missing-find t t.name s.tasks missing).0 ∙ known))
    | inr (vs, found) ↦
        let kept : (add_named s t).states ≡ s.states = rw (add_named, found) refl in
        ap (λ x. x.states) (add_ok s t h) ∙ kept
  ]
