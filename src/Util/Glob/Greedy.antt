-- ===== src/Util/Glob/Greedy.antt =====
-- internal/util/addr.go: `MatchGlob` takes the first occurrence of each part, which is enough.
use mathlib.Core.Path.{subst}
use i_pulse.Base.{
  ℕ, zero, suc, ◌-◌, ◌≡◌, ◌↔◌, inl, inr, refl, ap, sym, ◌∙◌, Bool, true, false, List, [], ◌∷◌, ◌++◌,
  Option, none, some, arith, Bool-cases, Option-cases, ◌==◌, leb, if◌then◌else◌, length,
  length-append, drop, take,
}
use i_pulse.Util.Glob.{
  star, split, same, strip, after_first, has_suffix, match_rest, match_parts, match_lower,
  match_glob,
}
use i_pulse.Util.Glob.Parts.{Glob, Follow, Glob-split, split-parts}
use i_pulse.Util.Glob.Occurrences.{
  same_iff, strip_sound, strip-append, after_first_sound, append_assoc, after_first-least,
}

-- Something, and then the parts.
Rest : List (List ℕ) → List ℕ → Type 0
Rest ps s = (u : List ℕ) × (v : List ℕ) × (s ≡ u ++ v) × Follow ps v

take-drop : (n : ℕ) (s : List ℕ) → take n s ++ drop n s ≡ s
take-drop zero s = refl
take-drop (suc n) [] = refl
take-drop (suc n) (c ∷ s) = ap (λ l. c ∷ l) (take-drop n s)

drop-append : (u p : List ℕ) → drop (length u) (u ++ p) ≡ p
drop-append [] p = refl
drop-append (c ∷ u) p = drop-append u p

append-nil : (s : List ℕ) → s ++ [] ≡ s
append-nil [] = refl
append-nil (c ∷ s) = ap (λ l. c ∷ l) (append-nil s)

has_suffix_sound : (s p : List ℕ) → has_suffix s p ≡ true → (u : List ℕ) × (s ≡ u ++ p)
unfolding has_suffix
has_suffix_sound s p h =
    let ends : same (drop (length s - length p) s) p ≡ true = ground (arith, h) in
    let is = (same_iff (drop (length s - length p) s) p).0 ends in
    (
      take (length s - length p) s,
      sym (take-drop (length s - length p) s) ∙ ap (λ l. take (length s - length p) s ++ l) is,
    )

has_suffix-append : (u p : List ℕ) → has_suffix (u ++ p) p ≡ true
unfolding has_suffix
has_suffix-append u p =
    let n = length-append u p in
    let fits : leb (length p) (length (u ++ p)) ≡ true = ground (arith, n) in
    let off : length (u ++ p) - length p ≡ length u = omega (arith, n) in
    let is : drop (length (u ++ p) - length p) (u ++ p) ≡ p =
      ap (λ k. drop k (u ++ p)) off ∙ drop-append u p in
    rw (fits, (same_iff (drop (length (u ++ p) - length p) (u ++ p)) p).1 is) refl

match_last : (p s : List ℕ) → (match_rest (p ∷ []) s ≡ true) ↔ Rest (p ∷ []) s
unfolding match_rest Rest
match_last p s = (
  λ h. elim (Bool-cases (has_suffix s p)) [
    | inl ends ↦ let (u, e) = has_suffix_sound s p ends in (u, p, e, refl)
    | inr other ↦
        let blank : same p [] ≡ true = ground (arith, h, other) in
        let empty = (same_iff p []).0 blank in
        (s, p, sym (append-nil s) ∙ ap (λ l. s ++ l) (sym empty), refl)
  ],
  λ h.
      let (u, v, e, is) = h in
      let ends : has_suffix s p ≡ true =
        subst (λ s. has_suffix s p ≡ true) (sym (e ∙ ap (λ l. u ++ l) is))
          (has_suffix-append u p) in
      rw ends refl,
)

after_nil : (s : List ℕ) → after_first [] s ≡ some s
unfolding after_first strip
after_nil [] = refl
after_nil (d ∷ s) = refl

skip_blank : (p s : List ℕ) → (if same p [] then some s else after_first p s) ≡ after_first p s
unfolding same
skip_blank [] s = sym (after_nil s)
skip_blank (c ∷ p) s = refl

abbrev next : List (List ℕ) → Option (List ℕ) → Bool
next ps none = false
next ps (some rest) = match_rest ps rest

match_rest-Rest :
    (p : List ℕ) (ps : List (List ℕ)) (s : List ℕ)
    → (match_rest (p ∷ ps) s ≡ true) ↔ Rest (p ∷ ps) s
unfolding match_rest Rest
match_rest-Rest p [] s = match_last p s
match_rest-Rest p (q ∷ ps) s = (
  λ h. elim (Option-cases (after_first p s)) [
    | inl missing ↦
        let no : match_rest (p ∷ q ∷ ps) s ≡ false =
          ap (next (q ∷ ps)) (skip_blank p s ∙ missing) in
        absurd (cc (sym no ∙ h))
    | inr (r, found) ↦
        let on : match_rest (p ∷ q ∷ ps) s ≡ match_rest (q ∷ ps) r =
          ap (next (q ∷ ps)) (skip_blank p s ∙ found) in
        let (u, v, e, rest) = (match_rest-Rest q ps r).0 (sym on ∙ h) in
        let (x, whole) = after_first_sound p s r found in
        (x, p ++ r, whole, (u, v, ap (λ l. p ++ l) e, rest))
  ],
  λ h.
      let (u, w, e, (a, b, e2, rest)) = h in
      let (r, x, found, ends) = after_first-least p u (a ++ b) s (e ∙ ap (λ l. u ++ l) e2) in
      let on : match_rest (p ∷ q ∷ ps) s ≡ match_rest (q ∷ ps) r =
        ap (next (q ∷ ps)) (skip_blank p s ∙ found) in
      on ∙ (match_rest-Rest q ps r).1 (x ++ a, b, ends ∙ sym (append_assoc x a b), rest),
)

match_parts-Follow :
    (p q : List ℕ) (ps : List (List ℕ)) (s : List ℕ)
    → (match_parts (p ∷ q ∷ ps) s ≡ true) ↔ Follow (p ∷ q ∷ ps) s
unfolding Rest
match_parts-Follow p q ps s = (
  λ h. elim (Option-cases (strip p s)) [
    | inl missing ↦
        let no : match_parts (p ∷ q ∷ ps) s ≡ false = ap (next (q ∷ ps)) missing in
        absurd (cc (sym no ∙ h))
    | inr (r, found) ↦
        let on : match_parts (p ∷ q ∷ ps) s ≡ match_rest (q ∷ ps) r = ap (next (q ∷ ps)) found in
        let (u, v, e, rest) = (match_rest-Rest q ps r).0 (sym on ∙ h) in
        (u, v, strip_sound p s r found ∙ ap (λ l. p ++ l) e, rest)
  ],
  λ h.
      let (u, v, e, rest) = h in
      let found : strip p s ≡ some (u ++ v) = ap (strip p) e ∙ strip-append p (u ++ v) in
      ap (next (q ∷ ps)) found ∙ (match_rest-Rest q ps (u ++ v)).1 (u, v, refl, rest),
)

-- A pattern of one part is that part.
split-one : (p q : List ℕ) → split p ≡ q ∷ [] → q ≡ p
unfolding split
split-one [] q e = cc e
split-one (c ∷ p) q e =
    let (r, rs, parts) = split-parts p in
    elim (Bool-cases (c == star)) [
      | inl at ↦
          let here : split (c ∷ p) ≡ [] ∷ r ∷ rs = rw (split, at, parts) refl in
          absurd (cc (sym here ∙ e))
      | inr off ↦
          let here : split (c ∷ p) ≡ (c ∷ r) ∷ rs = rw (split, off, parts) refl in
          let is : (c ∷ r) ∷ rs ≡ q ∷ [] = sym here ∙ e in
          let q_is : q ≡ c ∷ r = cc is in
          let none_else : rs ≡ [] = cc is in
          q_is ∙ ap (λ l. c ∷ l) (split-one p r (parts ∙ ap (λ l. r ∷ l) none_else))
    ]

many_parts :
    (pattern s : List ℕ) (p q : List ℕ) (ps : List (List ℕ))
    → split pattern ≡ p ∷ q ∷ ps
    → (match_parts (split pattern) s ≡ true) ↔ Glob pattern s
many_parts pattern s p q ps parts =
    let (there, back) = match_parts-Follow p q ps s in
    let (into, out) = Glob-split pattern s in
    (
      λ h. out (
          subst (λ l. Follow l s) (sym parts)
            (there (subst (λ l. match_parts l s ≡ true) parts h))),
      λ h.
          subst (λ l. match_parts l s ≡ true) (sym parts)
            (back (subst (λ l. Follow l s) parts (into h))),
    )

one_part :
    (pattern s : List ℕ) (p : List ℕ)
    → split pattern ≡ p ∷ []
    → (same pattern s ≡ true) ↔ Glob pattern s
one_part pattern s p parts =
    let is = split-one pattern p parts in
    let (into, out) = Glob-split pattern s in
    (
      λ h. out (subst (λ l. Follow l s) (sym parts) (sym ((same_iff pattern s).0 h) ∙ sym is)),
      λ h.
          let follows : s ≡ p = subst (λ l. Follow l s) parts (into h) in
          (same_iff pattern s).1 (sym (follows ∙ is)),
    )

any_string : (s : List ℕ) → Glob (star ∷ []) s
unfolding Glob
any_string s = inl (refl, (s, [], sym (append-nil s), refl))

-- A test that gives the value of another.
same_test : (b d : Bool) (P : Type 0) → b ≡ d → ((d ≡ true) ↔ P) → (b ≡ true) ↔ P
same_test b d P e h = subst (λ b. (b ≡ true) ↔ P) (sym e) h

match_lower-Glob : (pattern s : List ℕ) → (match_lower pattern s ≡ true) ↔ Glob pattern s
unfolding match_lower Glob same
match_lower-Glob [] s = same_iff s []
match_lower-Glob (c ∷ p) s = elim (Bool-cases (same (c ∷ p) (star ∷ []))) [
  | inl alone ↦
      let on : match_lower (c ∷ p) s ≡ true = rw alone refl in
      let is : star ∷ [] ≡ c ∷ p = sym ((same_iff (c ∷ p) (star ∷ [])).0 alone) in
      ((λ h. subst (λ l. Glob l s) is (any_string s)), (λ h. on))
  | inr other ↦
      let (q, qs, parts) = split-parts (c ∷ p) in
      elim qs as (λ qs. split (c ∷ p) ≡ q ∷ qs → (match_lower (c ∷ p) s ≡ true) ↔ Glob (c ∷ p) s) [
        | [] ↦ λ parts.
            let single : (length (split (c ∷ p)) == 1) ≡ true = ap (λ l. length l == 1) parts in
            let on : match_lower (c ∷ p) s ≡ same (c ∷ p) s = rw (other, single) refl in
            same_test _ _ _ on (one_part (c ∷ p) s q parts)
        | r ∷ rs ↦ λ parts.
            let n = ap length parts in
            let several : (length (split (c ∷ p)) == 1) ≡ false = ground (arith, n) in
            let on : match_lower (c ∷ p) s ≡ match_parts (split (c ∷ p)) s =
              rw (other, several) refl in
            same_test _ _ _ on (many_parts (c ∷ p) s q r rs parts)
      ]
        parts
]

-- `MatchGlob` accepts a string exactly when its pattern, both in lower case, describes it, a star standing
-- for any string and every other byte for itself.
pub match_glob-Glob :
    (lower : List ℕ → List ℕ) (pattern s : List ℕ)
    → (match_glob lower pattern s ≡ true) ↔ Glob (lower pattern) (lower s)
unfolding match_glob
match_glob-Glob lower pattern s = match_lower-Glob (lower pattern) (lower s)
