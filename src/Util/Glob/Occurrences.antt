-- ===== src/Util/Glob/Occurrences.antt =====
-- internal/util/addr.go: prefixes and first occurrences.
use i_pulse.Base.{
  ℕ, ◌≤◌, ◌≡◌, ◌↔◌, inl, inr, refl, ap, sym, ◌∙◌, true, List, [], ◌∷◌, ◌++◌, none, some, arith,
  Bool-cases, Option-cases, ◌==◌, length, length-append,
}
use i_pulse.Util.Glob.{same, strip, after_first}

pub same_iff : (a b : List ℕ) → (same a b ≡ true) ↔ (a ≡ b)
unfolding same
same_iff [] [] = ((λ h. refl), (λ h. refl))
same_iff [] (b ∷ ys) = ((λ h. absurd (cc h)), (λ h. absurd (cc h)))
same_iff (a ∷ xs) [] = ((λ h. absurd (cc h)), (λ h. absurd (cc h)))
same_iff (a ∷ xs) (b ∷ ys) =
    let rest = same_iff xs ys in (λ h. ground (arith, h, rest), λ h. ground (arith, h, rest))

pub strip_sound : (p s t : List ℕ) → strip p s ≡ some t → s ≡ p ++ t
unfolding strip
strip_sound [] s t h = cc h
strip_sound (c ∷ p) [] t h = absurd (cc h)
strip_sound (c ∷ p) (d ∷ s) t h = elim (Bool-cases (c == d)) [
  | inl at ↦
      let here : strip (c ∷ p) (d ∷ s) ≡ strip p s = rw at refl in
      let eq : d ≡ c = ground (arith, at) in
      let rest = strip_sound p s t (sym here ∙ h) in cc (eq, rest)
  | inr off ↦ let here : strip (c ∷ p) (d ∷ s) ≡ none = rw off refl in absurd (cc (sym here ∙ h))
]

pub strip-append : (p t : List ℕ) → strip p (p ++ t) ≡ some t
unfolding strip
strip-append [] t = refl
strip-append (c ∷ p) t = let at : (c == c) ≡ true = ground arith in rw at (strip-append p t)

pub after_first_sound :
    (p s t : List ℕ) → after_first p s ≡ some t → (u : List ℕ) × (s ≡ u ++ (p ++ t))
unfolding after_first
after_first_sound p [] t h = ([], strip_sound p [] t h)
after_first_sound p (d ∷ s) t h = elim (Option-cases (strip p (d ∷ s))) [
  | inl missing ↦
      let here : after_first p (d ∷ s) ≡ after_first p s = rw (after_first, missing) refl in
      let (u, e) = after_first_sound p s t (sym here ∙ h) in (d ∷ u, ap (λ l. d ∷ l) e)
  | inr (r, found) ↦
      let here : after_first p (d ∷ s) ≡ some r = rw (after_first, found) refl in
      ([], strip_sound p (d ∷ s) t (found ∙ sym here ∙ h))
]

pub append_assoc : (a b c : List ℕ) → a ++ b ++ c ≡ a ++ (b ++ c)
append_assoc [] b c = refl
append_assoc (x ∷ a) b c = ap (λ l. x ∷ l) (append_assoc a b c)

-- Of two ends of a string, the shorter one ends the longer one.
later_end : (a t p r : List ℕ) → a ++ t ≡ p ++ r → length t ≤ length r → (x : List ℕ) × (r ≡ x ++ t)
later_end a t [] r e short = (a, sym e)
later_end [] t (c ∷ p) r e short =
    let n = ap length e in let m = length-append p r in absurd (omega (arith, n, m, short))
later_end (b ∷ a) t (c ∷ p) r e short = later_end a t p r (cc e) short

-- Wherever a part occurs, its first occurrence is found, and what follows any occurrence ends what
-- follows the first.
pub after_first-least :
    (p u t s : List ℕ)
    → s ≡ u ++ (p ++ t)
    → (r : List ℕ) × (x : List ℕ) × (after_first p s ≡ some r) × (r ≡ x ++ t)
unfolding after_first
after_first-least p [] t [] e = (t, [], ap (strip p) e ∙ strip-append p t, refl)
after_first-least p [] t (d ∷ s) e =
    let found : strip p (d ∷ s) ≡ some t = ap (strip p) e ∙ strip-append p t in
    (t, [], rw (after_first, found) refl, refl)
after_first-least p (c ∷ u) t [] e = absurd (cc e)
after_first-least p (c ∷ u) t (d ∷ s) e =
    let tail : s ≡ u ++ (p ++ t) = cc e in
    let (r, x, found, ends) = after_first-least p u t s tail in
    elim (Option-cases (strip p (d ∷ s))) [
      | inl missing ↦ (r, x, rw (after_first, missing) found, ends)
      | inr (q, here) ↦
          let whole : (c ∷ u) ++ p ++ t ≡ p ++ q =
            append_assoc (c ∷ u) p t ∙ sym e ∙ strip_sound p (d ∷ s) q here in
          let long : length t ≤ length q =
            let n = ap length whole in
            let a = length-append ((c ∷ u) ++ p) t in
            let b = length-append (c ∷ u) p in
            let f = length-append p q in omega (arith, n, a, b, f) in
          let (y, e2) = later_end ((c ∷ u) ++ p) t p q whole long in
          (q, y, rw (after_first, here) refl, e2)
    ]
