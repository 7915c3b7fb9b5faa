-- ===== src/Correlation/View/Ids.antt =====
-- internal/correlation/window.go: the event ids that a conclusion suppresses.
use i_pulse.Base.{
  ℕ, ℤ, pos, negsuc, ◌≡◌, ◌⊎◌, refl, ap, sym, ◌∙◌, Bool, true, false, not, ◌&&◌, ◌||◌, List, [],
  ◌∷◌, ◌++◌, arith, Bool-cases, inl, inr,
}
use i_pulse.Correlation.Window.{Signal}
use i_pulse.Correlation.View.{
  View, events_of, event_ids, events_with_codes, eq_ℤ, mem_id, collect_ids, insert_by_time,
  sort_by_time, concat_codes,
}

eq_ℤ-≡ : (i j : ℤ) → eq_ℤ i j ≡ true → i ≡ j
unfolding eq_ℤ
eq_ℤ-≡ (pos m) (pos n) h = let same : m ≡ n = ground arith in ap pos same
eq_ℤ-≡ (pos m) (negsuc n) h = absurd (ground arith)
eq_ℤ-≡ (negsuc m) (pos n) h = absurd (ground arith)
eq_ℤ-≡ (negsuc m) (negsuc n) h = let same : m ≡ n = ground arith in ap negsuc same

eq_ℤ-refl : (j : ℤ) → eq_ℤ j j ≡ true
unfolding eq_ℤ
eq_ℤ-refl (pos n) = ground arith
eq_ℤ-refl (negsuc n) = ground arith

eq_ℤ-self : (j i : ℤ) → i ≡ j → eq_ℤ j i ≡ true
eq_ℤ-self j i same = ap (λ x. eq_ℤ j x) same ∙ eq_ℤ-refl j

mem_id-push : (i j : ℤ) (l : List ℤ) → mem_id i (l ++ j ∷ []) ≡ (mem_id i l || eq_ℤ i j)
unfolding mem_id
mem_id-push i j [] = ground arith
mem_id-push i j (k ∷ l) = ground (arith, mem_id-push i j l)

-- No id stands twice.
abbrev pub Distinct : List ℤ → Type 0
Distinct [] = Unit
Distinct (i ∷ l) = (mem_id i l ≡ false) × Distinct l

Distinct-push : (j : ℤ) (l : List ℤ) → Distinct l → mem_id j l ≡ false → Distinct (l ++ j ∷ [])
unfolding mem_id
Distinct-push j [] h new = (refl, tt)
Distinct-push j (i ∷ l) h new =
    let other : eq_ℤ i j ≡ false = elim (Bool-cases (eq_ℤ i j)) [
      | inr differ ↦ differ
      | inl equal ↦
          let back = eq_ℤ-self j i (eq_ℤ-≡ i j equal) in
          let seen : mem_id j (i ∷ l) ≡ true = rw back refl in absurd (cc (sym new ∙ seen))
    ] in
    (mem_id-push i j l ∙ ground arith, Distinct-push j l h.1 (ground arith))

-- A signal that is passed over, and one that is added, in the description of what is collected.
without :
    (a z e h : Bool)
    → (e ≡ true → (z ≡ true) ⊎ (a ≡ true))
    → (a || (not z && h)) ≡ (a || (not z && (e || h)))
without true z e h skip = refl
without false true e h skip = refl
without false false false h skip = refl
without false false true h skip =
    absurd (elim (skip refl) [ inl no_zero ↦ cc no_zero | inr not_seen ↦ cc not_seen ])

with_new :
    (a z e h : Bool)
    → (e ≡ true → z ≡ false)
    → ((a || e) || (not z && h)) ≡ (a || (not z && (e || h)))
with_new true z e h real = refl
with_new false z false h real = refl
with_new false false true h real = refl
with_new false true true h real = cc (real refl)

module _ {F : Type 0} where
  -- Some signal has the id.
  abbrev pub has_id : ℤ → List (Signal F) → Bool
  has_id i [] = false
  has_id i (s ∷ l) = eq_ℤ i s.event_id || has_id i l

  -- Some event with one of the codes has the id.
  abbrev pub has_coded : ℤ → View F → List ℕ → Bool
  has_coded i v [] = false
  has_coded i v (c ∷ cs) = has_id i (events_of v c) || has_coded i v cs

  has_id-append : (i : ℤ) (l m : List (Signal F)) → has_id i (l ++ m) ≡ (has_id i l || has_id i m)
  has_id-append i [] m = refl
  has_id-append i (s ∷ l) m = ground (arith, has_id-append i l m)

  has_id-concat :
      (i : ℤ) (v : View F) (cs : List ℕ) → has_id i (concat_codes v cs) ≡ has_coded i v cs
  unfolding concat_codes
  has_id-concat i v [] = refl
  has_id-concat i v (c ∷ cs) =
      has_id-append i (events_of v c) (concat_codes v cs)
      ∙ ap (λ b. has_id i (events_of v c) || b) (has_id-concat i v cs)

  has_id-insert :
      (i : ℤ) (s : Signal F) (l : List (Signal F))
      → has_id i (insert_by_time s l) ≡ (eq_ℤ i s.event_id || has_id i l)
  unfolding insert_by_time
  has_id-insert i s [] = refl
  has_id-insert i s (t ∷ l) = ground (arith, has_id-insert i s l)

  has_id-sort : (i : ℤ) (l : List (Signal F)) → has_id i (sort_by_time l) ≡ has_id i l
  unfolding sort_by_time
  has_id-sort i [] = refl
  has_id-sort i (s ∷ l) =
      has_id-insert i s (sort_by_time l) ∙ ap (λ b. eq_ℤ i s.event_id || b) (has_id-sort i l)

  collect_ids-mem :
      (i : ℤ) (out : List ℤ) (l : List (Signal F))
      → mem_id i (collect_ids out l) ≡ (mem_id i out || (not (eq_ℤ i (pos 0)) && has_id i l))
  unfolding collect_ids
  collect_ids-mem i out [] = ground arith
  collect_ids-mem i out (s ∷ l) =
      let d = s.event_id in
      let zero_too = λ (h : eq_ℤ i d ≡ true). ap (λ x. eq_ℤ x (pos 0)) (eq_ℤ-≡ i d h) in
      let seen_too = λ (h : eq_ℤ i d ≡ true). ap (λ x. mem_id x out) (eq_ℤ-≡ i d h) in
      elim (Bool-cases (eq_ℤ d (pos 0))) [
        | inl zero ↦ rw zero (
            collect_ids-mem i out l
            ∙ without (mem_id i out) (eq_ℤ i (pos 0)) (eq_ℤ i d) (has_id i l)
                (λ h. inl (zero_too h ∙ zero)))
        | inr real ↦ elim (Bool-cases (mem_id d out)) [
          | inl seen ↦
              rw (real, seen)
                (collect_ids-mem i out l
                  ∙ without (mem_id i out) (eq_ℤ i (pos 0)) (eq_ℤ i d) (has_id i l)
                      (λ h. inr (seen_too h ∙ seen)))
          | inr new ↦
              rw (real, new)
                (collect_ids-mem i (out ++ d ∷ []) l
                  ∙ ap (λ b. b || (not (eq_ℤ i (pos 0)) && has_id i l)) (mem_id-push i d out)
                  ∙ with_new (mem_id i out) (eq_ℤ i (pos 0)) (eq_ℤ i d) (has_id i l)
                      (λ h. zero_too h ∙ real))
        ]
      ]

  collect_ids-Distinct :
      (out : List ℤ) (l : List (Signal F)) → Distinct out → Distinct (collect_ids out l)
  unfolding collect_ids
  collect_ids-Distinct out [] h = h
  collect_ids-Distinct out (s ∷ l) h = elim (Bool-cases (eq_ℤ s.event_id (pos 0))) [
    | inl zero ↦ rw zero (collect_ids-Distinct out l h)
    | inr real ↦ elim (Bool-cases (mem_id s.event_id out)) [
      | inl seen ↦ rw (real, seen) (collect_ids-Distinct out l h)
      | inr new ↦
          rw (real, new)
            (collect_ids-Distinct (out ++ s.event_id ∷ []) l (Distinct-push s.event_id out h new))
    ]
  ]

  -- The ids that a conclusion suppresses: an id is among them exactly when it is not 0 and some event
  -- with one of the codes has it, and none is among them twice.
  pub event_ids-mem :
      (v : View F) (codes : List ℕ) (i : ℤ)
      → (mem_id i (event_ids v codes) ≡ (not (eq_ℤ i (pos 0)) && has_coded i v codes))
        × Distinct (event_ids v codes)
  unfolding event_ids events_with_codes mem_id
  event_ids-mem v codes i = (
    collect_ids-mem i [] (events_with_codes v codes)
        ∙ ap (λ b. not (eq_ℤ i (pos 0)) && b)
            (has_id-sort i (concat_codes v codes) ∙ has_id-concat i v codes),
    collect_ids-Distinct [] (events_with_codes v codes) tt,
  )
