-- ===== src/Correlation/Engine/First.antt =====
-- internal/correlation/engine.go: `Evaluate` reports the first rule that may fire, with the evidence.
use i_pulse.Base.{
  if_not_on, ℕ, ◌≡◌, ◌⊎◌, refl, ap, sym, ◌∙◌, true, false, List, [], ◌∷◌, String, Option, none,
  some, arith, All, Bool-cases, Option-cases, inl, inr,
}
use mathlib.Core.Path.{subst}
use i_pulse.Correlation.Window.{snapshot}
use i_pulse.Correlation.View.{View, new_view}
use i_pulse.Correlation.Engine.{
  Engine, Rule, Match, Condition, cooldown_elapsed, gather, match_of, first_match, evaluate,
  detail_or_name,
}

module _ {F : Type 0} where
  -- One detail for each condition, in order: what its match says, or its name if that is empty.
  abbrev pub Gathered : View F → List (Condition F) → List String → Type 0
  Gathered v [] [] = Unit {0}
  Gathered v [] (d ∷ ds) = ⊥
  Gathered v (c ∷ cs) [] = ⊥
  Gathered v (c ∷ cs) (d ∷ ds) =
      ((x : String) × (c.match v ≡ some x) × (d ≡ detail_or_name c.name x)) × Gathered v cs ds

  -- Some condition fails.
  abbrev pub Fails : View F → List (Condition F) → Type 0
  Fails v [] = ⊥
  Fails v (c ∷ cs) = (c.match v ≡ none) ⊎ Fails v cs

  gather-cons :
      (v : View F) (c : Condition F) (cs : List (Condition F)) (x : String) (l : List String)
      → c.match v ≡ some x
      → gather v cs ≡ some l
      → gather v (c ∷ cs) ≡ some (detail_or_name c.name x ∷ l)
  unfolding gather
  gather-cons v c cs x l h k = rw (h, k)

  gather-cons_none :
      (v : View F) (c : Condition F) (cs : List (Condition F))
      → (c.match v ≡ none) ⊎ (gather v cs ≡ none)
      → gather v (c ∷ cs) ≡ none
  unfolding gather
  gather-cons_none v c cs h = ground arith

  gather-Gathered :
      (v : View F) (cs : List (Condition F)) (ds : List String)
      → gather v cs ≡ some ds
      → Gathered v cs ds
  unfolding gather
  gather-Gathered v [] [] h = tt
  gather-Gathered v [] (d ∷ ds) h = cc
  gather-Gathered v (c ∷ cs) ds h = elim (Option-cases (c.match v)) [
    | inl e ↦ absurd (cc (gather-cons_none v c cs (inl e)))
    | inr (x, e) ↦ elim (Option-cases (gather v cs)) [
      | inl g ↦ absurd (cc (gather-cons_none v c cs (inr g)))
      | inr (l, g) ↦
          let same : detail_or_name c.name x ∷ l ≡ ds = cc (gather-cons v c cs x l e g) in
          subst (Gathered v (c ∷ cs)) same ((x, e, refl), gather-Gathered v cs l g)
    ]
  ]

  Gathered-gather :
      (v : View F) (cs : List (Condition F)) (ds : List String)
      → Gathered v cs ds
      → gather v cs ≡ some ds
  unfolding gather
  Gathered-gather v [] [] h = refl
  Gathered-gather v [] (d ∷ ds) h = absurd h
  Gathered-gather v (c ∷ cs) [] h = absurd h
  Gathered-gather v (c ∷ cs) (d ∷ ds) ((x, e, same), rest) =
      rw (e, Gathered-gather v cs ds rest, same)

  gather-Fails : (v : View F) (cs : List (Condition F)) → gather v cs ≡ none → Fails v cs
  unfolding gather
  gather-Fails v [] h = absurd (cc h)
  gather-Fails v (c ∷ cs) h = ground (arith, gather-Fails v cs)

  -- A rule may fire: it is past its cooldown and all its conditions hold, with this evidence.
  abbrev pub MayFire : Engine F → View F → ℕ → Rule F → List String → Type 0
  MayFire e v now r ds = (cooldown_elapsed e r now ≡ true) × Gathered v r.requires ds

  abbrev pub IsBlocked : Engine F → View F → ℕ → Rule F → Type 0
  IsBlocked e v now r = (cooldown_elapsed e r now ≡ false) ⊎ Fails v r.requires

  -- The match is that of the first rule of the list that may fire.
  abbrev pub IsFirst : Engine F → View F → ℕ → List (Rule F) → Match F → Type 0
  IsFirst e v now [] m = ⊥
  IsFirst e v now (r ∷ rs) m =
      ((ds : List String) × MayFire e v now r ds × (m ≡ match_of v now r ds))
      ⊎ (IsBlocked e v now r × IsFirst e v now rs m)

  pub first_match_blocked :
      (e : Engine F) (v : View F) (now : ℕ) (r : Rule F) (rs : List (Rule F))
      → (cooldown_elapsed e r now ≡ false) ⊎ (gather v r.requires ≡ none)
      → first_match e v now (r ∷ rs) ≡ first_match e v now rs
  unfolding first_match
  first_match_blocked e v now r rs (inl h) = rw h
  first_match_blocked e v now r rs (inr h) = elim (Bool-cases (cooldown_elapsed e r now)) [
    | inl ready ↦ rw (ready, h)
    | inr waits ↦ rw waits
  ]

  pub first_match_fires :
      (e : Engine F) (v : View F) (now : ℕ) (r : Rule F) (rs : List (Rule F)) (ds : List String)
      → cooldown_elapsed e r now ≡ true
      → gather v r.requires ≡ some ds
      → first_match e v now (r ∷ rs) ≡ some (match_of v now r ds)
  unfolding first_match
  first_match_fires e v now r rs ds ready all = rw (ready, all)

  first_match-IsFirst :
      (e : Engine F) (v : View F) (now : ℕ) (rs : List (Rule F)) (m : Match F)
      → first_match e v now rs ≡ some m
      → IsFirst e v now rs m
  unfolding first_match
  first_match-IsFirst e v now [] m h = absurd (cc h)
  first_match-IsFirst e v now (r ∷ rs) m h = elim (Bool-cases (cooldown_elapsed e r now)) [
    | inl ready ↦ elim (Option-cases (gather v r.requires)) [
      | inl g ↦ inr (
        inr (gather-Fails v r.requires g),
        first_match-IsFirst e v now rs m (sym (first_match_blocked e v now r rs (inr g)) ∙ h),
      )
      | inr (ds, g) ↦ inl (
        ds,
        (ready, gather-Gathered v r.requires ds g),
        cc (first_match_fires e v now r rs ds ready g),
      )
    ]
    | inr waits ↦ inr (
      inl waits,
      first_match-IsFirst e v now rs m (sym (first_match_blocked e v now r rs (inl waits)) ∙ h),
    )
  ]

  first_match-none :
      (e : Engine F) (v : View F) (now : ℕ) (rs : List (Rule F))
      → first_match e v now rs ≡ none
      → All (IsBlocked e v now) rs
  unfolding first_match
  first_match-none e v now [] h = tt
  first_match-none e v now (r ∷ rs) h = elim (Bool-cases (cooldown_elapsed e r now)) [
    | inl ready ↦ elim (Option-cases (gather v r.requires)) [
      | inl g ↦ (
        inr (gather-Fails v r.requires g),
        first_match-none e v now rs (sym (first_match_blocked e v now r rs (inr g)) ∙ h),
      )
      | inr (ds, g) ↦ absurd (cc (sym h ∙ first_match_fires e v now r rs ds ready g))
    ]
    | inr waits ↦ (
      inl waits,
      first_match-none e v now rs (sym (first_match_blocked e v now r rs (inl waits)) ∙ h),
    )
  ]

  -- The view that an evaluation looks at.
  abbrev pub view_at : (String → String) → Engine F → ℕ → View F
  view_at upper e now = new_view upper now (snapshot e.window now).1

  pub evaluate_on :
      (upper : String → String) (e : Engine F) (now : ℕ)
      → e.enabled ≡ true
      → (evaluate upper e now).1 ≡ first_match e (view_at upper e now) now e.rules
  unfolding evaluate
  evaluate_on upper e now on =
      ap {A = Engine F × Option (Match F)} (λ r. r.1) (if_not_on e.enabled (e, none) _ on)

  -- An evaluation of an enabled engine reports a match only if it is that of the first rule, in the
  -- order of the rule set, that is past its cooldown and has every condition satisfied, each rule
  -- before it being in its cooldown or failing a condition, and the match carries one detail for
  -- each condition, in order; it reports nothing only if every rule is so blocked. A disabled engine
  -- reports nothing and is left as it was.
  pub evaluate-IsFirst :
      (upper : String → String) (e : Engine F) (now : ℕ)
      → (e.enabled ≡ true
          → ((m : Match F)
              → (evaluate upper e now).1 ≡ some m
              → IsFirst e (view_at upper e now) now e.rules m)
            × ((evaluate upper e now).1 ≡ none
                → All (IsBlocked e (view_at upper e now) now) e.rules))
        × (e.enabled ≡ false → evaluate upper e now ≡ (e, none))
  unfolding evaluate
  evaluate-IsFirst upper e now = (
    λ on.
        let same = evaluate_on upper e now on in
        (
          λ m h. first_match-IsFirst e (view_at upper e now) now e.rules m (sym same ∙ h),
          λ h. first_match-none e (view_at upper e now) now e.rules (sym same ∙ h),
        ),
    λ off. rw off,
  )
