-- ===== src/Util/Glob/Parts.antt =====
-- internal/util/addr.go: what a glob pattern means, and what its parts between the stars mean.
use mathlib.Core.Path.{subst}
use i_pulse.Base.{
  ℕ, ◌≡◌, ◌≢◌, ◌↔◌, ◌⊎◌, inl, inr, refl, ap, sym, ◌∙◌, List, [], ◌∷◌, ◌++◌, arith, Bool-cases, ◌==◌,
}
use i_pulse.Util.Glob.{star, prepend, split}

-- A star stands for any string, any other byte for itself.
unfoldable pub Glob : List ℕ → List ℕ → Type 0
Glob [] s = s ≡ []
Glob (c ∷ p) s =
    ((c ≡ star) × ((u : List ℕ) × (v : List ℕ) × (s ≡ u ++ v) × Glob p v))
    ⊎ ((c ≢ star) × ((t : List ℕ) × (s ≡ c ∷ t) × Glob p t))

-- The parts follow each other with anything in between, the first at the start, the last at the end.
abbrev pub Follow : List (List ℕ) → List ℕ → Type 0
Follow [] s = ⊥
Follow (p ∷ []) s = s ≡ p
Follow (p ∷ q ∷ ps) s = (u : List ℕ) × (v : List ℕ) × (s ≡ p ++ (u ++ v)) × Follow (q ∷ ps) v

prepend-Follow :
    (c : ℕ) (ps : List (List ℕ)) (t : List ℕ) → Follow ps t → Follow (prepend c ps) (c ∷ t)
prepend-Follow c [] t h = absurd h
prepend-Follow c (p ∷ []) t h = ap (λ s. c ∷ s) h
prepend-Follow c (p ∷ q ∷ ps) t (u, v, e, h) = (u, v, ap (λ s. c ∷ s) e, h)

Follow-prepend :
    (c : ℕ) (p : List ℕ) (ps : List (List ℕ)) (s : List ℕ)
    → Follow (prepend c (p ∷ ps)) s
    → (t : List ℕ) × (s ≡ c ∷ t) × Follow (p ∷ ps) t
Follow-prepend c p [] s h = (p, h, refl)
Follow-prepend c p (q ∷ ps) s (u, v, e, h) = (p ++ (u ++ v), e, (u, v, refl, h))

pub split-parts : (p : List ℕ) → (q : List ℕ) × (qs : List (List ℕ)) × (split p ≡ q ∷ qs)
unfolding split
split-parts [] = ([], [], refl)
split-parts (c ∷ p) =
    let (q, qs, e) = split-parts p in
    elim (Bool-cases (c == star)) [
      | inl at ↦ ([], split p, rw at refl)
      | inr off ↦ (c ∷ q, qs, rw (off, e) refl)
    ]

star-Follow :
    (p : List ℕ) (s : List ℕ)
    → Follow ([] ∷ split p) s ↔ ((u : List ℕ) × (v : List ℕ) × (s ≡ u ++ v) × Follow (split p) v)
star-Follow p s = let (q, qs, e) = split-parts p in rw e ((λ h. h), (λ h. h))

-- A pattern matches exactly when its parts follow each other.
pub Glob-split : (p s : List ℕ) → Glob p s ↔ Follow (split p) s
unfolding Glob split
Glob-split [] s = ((λ h. h), (λ h. h))
Glob-split (c ∷ p) s = elim (Bool-cases (c == star)) [
  | inl at ↦
      let is_star : c ≡ star = ground (arith, at) in
      let here : split (c ∷ p) ≡ [] ∷ split p = rw at refl in
      (
        λ h. elim h [
          | inl (e, (u, v, cut, rest)) ↦
              let parts = (star-Follow p s).1 (u, v, cut, (Glob-split p v).0 rest) in
              subst (λ ps. Follow ps s) (sym here) parts
          | inr (e, h) ↦ absurd (e is_star)
        ],
        λ h.
            let (u, v, cut, rest) = (star-Follow p s).0 (subst (λ ps. Follow ps s) here h) in
            inl (is_star, (u, v, cut, (Glob-split p v).1 rest)),
      )
  | inr off ↦
      let no_star : c ≢ star = λ e. ground (arith, off, e) in
      let here : split (c ∷ p) ≡ prepend c (split p) = rw off refl in
      (
        λ h. elim h [
          | inl (e, h) ↦ absurd (no_star e)
          | inr (e, (t, cut, rest)) ↦
              let parts = prepend-Follow c (split p) t ((Glob-split p t).0 rest) in
              subst (λ s. Follow (split (c ∷ p)) s) (sym cut)
                (subst (λ ps. Follow ps (c ∷ t)) (sym here) parts)
        ],
        λ h.
            let (q, qs, e) = split-parts p in
            let both : split (c ∷ p) ≡ prepend c (q ∷ qs) = here ∙ ap (prepend c) e in
            let (t, cut, rest) = Follow-prepend c q qs s (subst (λ ps. Follow ps s) both h) in
            inr (no_star, (t, cut, (Glob-split p t).1 (subst (λ ps. Follow ps t) (sym e) rest))),
      )
]
