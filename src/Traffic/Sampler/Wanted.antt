-- ===== src/Traffic/Sampler/Wanted.antt =====
-- internal/traffic/sampler.go: which interfaces a configuration asks for.
use mathlib.Core.Path.{subst}
use Prim.{⊥}
use i_pulse.Base.{
  ℕ, ◌≡◌, ◌≢◌, ◌⊎◌, inl, inr, refl, ap, ◌∙◌, Bool, true, false, ◌&&◌, List, [], ◌∷◌, ◌++◌, Option,
  none, some, arith, Bool-cases, Option-cases, All, if◌then◌else◌, length, ltb,
}
use i_pulse.Util.Glob.{same, matches_any_glob}
use i_pulse.Util.Glob.Occurrences.{same_iff}
use i_pulse.Traffic.Sampler.{Interface, Config, loopback, monitored, seen, bytes_eq}

abbrev pub is_some {ℓ} : {A : Type ℓ} → Option A → Bool
is_some none = false
is_some (some a) = true

module _ (lower : List ℕ → List ℕ) (cfg : Config) where
  -- An interface that the configuration asks for: not a loopback, and matched by the patterns to include
  -- if there are any, or else not matched by those to exclude.
  abbrev pub IsWanted : Interface → Type 0
  IsWanted iface =
      (iface.type ≢ loopback)
      × (((cfg.include ≢ []) × (matches_any_glob lower cfg.include iface.name ≡ true))
          ⊎ ((cfg.include ≡ []) × (matches_any_glob lower cfg.exclude iface.name ≡ false)))

  no_pattern : (ps : List (List ℕ)) → ltb 0 (length ps) ≡ false → ps ≡ []
  no_pattern [] h = refl
  no_pattern (p ∷ ps) h = absurd (ground (arith, h))

  some_pattern : (ps : List (List ℕ)) → ltb 0 (length ps) ≡ true → ps ≢ []
  some_pattern [] h e = absurd (ground (arith, h))
  some_pattern (p ∷ ps) h e = absurd (cc e)

  not_same : (a b : List ℕ) → same a b ≡ false → a ≢ b
  not_same a b h e = absurd (cc (h, (same_iff a b).1 e))

  monitored-IsWanted : (iface : Interface) → monitored lower cfg iface ≡ true → IsWanted iface
  unfolding monitored
  monitored-IsWanted iface h = elim (Bool-cases (same iface.type loopback)) [
    | inl local ↦ absurd (ground (arith, h, local))
    | inr other ↦ elim (Bool-cases (ltb 0 (length cfg.include))) [
      | inl listed ↦ (
        not_same iface.type loopback other,
        inl (some_pattern cfg.include listed, ground (arith, h, other, listed)),
      )
      | inr unlisted ↦ (
        not_same iface.type loopback other,
        inr (no_pattern cfg.include unlisted, ground (arith, h, other, unlisted)),
      )
    ]
  ]

  IsWanted-monitored : (iface : Interface) → IsWanted iface → monitored lower cfg iface ≡ true
  unfolding monitored
  IsWanted-monitored iface (distinct, by) =
      let other : same iface.type loopback ≡ false = elim (Bool-cases (same iface.type loopback)) [
        | inl local ↦ absurd (distinct ((same_iff iface.type loopback).0 local))
        | inr other ↦ other
      ] in
      elim (Bool-cases (ltb 0 (length cfg.include))) [
        | inl listed ↦ elim by [
          | inl (some_given, matched) ↦ ground (arith, other, listed, matched)
          | inr (none_given, unmatched) ↦ absurd (some_pattern cfg.include listed none_given)
        ]
        | inr unlisted ↦ elim by [
          | inl (some_given, matched) ↦ absurd (some_given (no_pattern cfg.include unlisted))
          | inr (none_given, unmatched) ↦ ground (arith, other, unlisted, unmatched)
        ]
      ]

  unfoldable pub IsOther : List ℕ → Interface → Type 0
  IsOther n j = j.name ≡ n → IsWanted j → ⊥

  -- The last monitored interface of a name.
  unfoldable pub last_read : List ℕ → List Interface → Option Interface
  last_read n [] = none
  last_read n (iface ∷ rest) =
      let later = last_read n rest in
      elim later [
        | some j ↦ some j
        | none ↦ if monitored lower cfg iface && same iface.name n then some iface else none
      ]

  -- Where it stands: nothing wanted of its name follows it.
  unfoldable pub IsLast : List ℕ → List Interface → Option Interface → Type 0
  IsLast n ifaces none = All (IsOther n) ifaces
  IsLast n ifaces (some i) =
      (before : List Interface) × (after : List Interface) × (ifaces ≡ before ++ i ∷ after)
      × (i.name ≡ n)
      × IsWanted i
      × All (IsOther n) after

  pub last_read-IsLast :
      (n : List ℕ) (ifaces : List Interface) → IsLast n ifaces (last_read n ifaces)
  unfolding last_read IsLast IsOther
  last_read-IsLast n [] = tt
  last_read-IsLast n (iface ∷ rest) = elim (Option-cases (last_read n rest)) [
    | inr (j, found) ↦
        let (before, after, e, named, wanted, others) =
          subst (IsLast n rest) found (last_read-IsLast n rest) in
        rw found (iface ∷ before, after, ap (λ l. iface ∷ l) e, named, wanted, others)
    | inl nothing ↦
        let others = subst (IsLast n rest) nothing (last_read-IsLast n rest) in
        elim (Bool-cases (monitored lower cfg iface && same iface.name n)) [
          | inl this ↦
              let on : monitored lower cfg iface ≡ true = ground (arith, this) in
              let at : same iface.name n ≡ true = ground (arith, this) in
              rw (nothing, this)
                ([], rest, refl, (same_iff iface.name n).0 at, monitored-IsWanted iface on, others)
          | inr other ↦
              rw (nothing, other)
                (
                  (λ named wanted.
                      let on = IsWanted-monitored iface wanted in
                      let at = (same_iff iface.name n).1 named in
                      absurd (ground (arith, other, on, at))),
                  others,
                )
        ]
  ]

  pub seen-last_read :
      (n : List ℕ) (ifaces : List Interface)
      → seen lower cfg ifaces n ≡ is_some (last_read n ifaces)
  unfolding seen last_read
  seen-last_read n [] = refl
  seen-last_read n (iface ∷ rest) =
      let later = seen-last_read n rest in
      elim (Option-cases (last_read n rest)) [
        | inr (j, found) ↦ rw found (ground (arith, later, found))
        | inl nothing ↦ elim (Bool-cases (monitored lower cfg iface && same iface.name n)) [
          | inl this ↦ rw (nothing, this) (ground (arith, this))
          | inr other ↦
              let no_more : seen lower cfg rest n ≡ false = later ∙ ap is_some nothing in
              rw (nothing, other, no_more) refl
        ]
      ]
