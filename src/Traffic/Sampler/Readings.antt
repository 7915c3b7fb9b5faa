-- ===== src/Traffic/Sampler/Readings.antt =====
-- internal/traffic/sampler.go: which readings a call leaves behind.
use mathlib.Core.Path.{subst}
use Prim.{⊥}
use i_pulse.Base.{
  ℕ, ◌≡◌, inl, inr, refl, ap, sym, ◌∙◌, Bool, List, [], ◌∷◌, ◌++◌, Option, none, some, Bool-cases,
  Option-cases, Floats, All, get, put, get-put, get-retain, only_if, test_at,
}
use i_pulse.Traffic.SelfTraffic.{SelfTraffic}
use i_pulse.Util.Glob.{same}
use i_pulse.Traffic.Sampler.{
  Interface, Config, Sampler, Sample, monitored, seen, reading, sample_all, sample, bytes_eq,
}
use i_pulse.Traffic.Sampler.Wanted.{
  is_some, IsWanted, IsOther, last_read, IsLast, last_read-IsLast, seen-last_read,
}

module _ {F : Type 0} ⦃fl : Floats F⦄ (scale : ℕ → ℕ → ℕ → ℕ) (lower : List ℕ → List ℕ)
    (cfg : Config) (self : Option SelfTraffic) (now : ℕ) where
  abbrev or_held : Option (Sample F) → Option Interface → Option (Sample F)
  or_held o none = o
  or_held o (some i) = some (reading i now)

  get-sample_all :
      (n : List ℕ) (ifaces : List Interface) (held : List (List ℕ × Sample F))
      → get n (sample_all scale lower cfg self now held ifaces).0
        ≡ or_held (get n held) (last_read lower cfg n ifaces)
  unfolding sample_all last_read
  get-sample_all n [] held = refl
  get-sample_all n (iface ∷ rest) held =
      let one = put iface.name (reading iface now) held in
      let taken = get-sample_all n rest one in
      let skipped = get-sample_all n rest held in
      let stored = get-put iface.name n (reading iface now) held in
      elim (Bool-cases (monitored lower cfg iface)) [
        | inl on ↦ elim (Option-cases (last_read lower cfg n rest)) [
          | inr (j, found) ↦ rw (on, found) (taken ∙ ap (or_held (get n one)) found)
          | inl nothing ↦ elim (Bool-cases (same iface.name n)) [
            | inl at ↦
                rw (on, nothing, at)
                  (taken ∙ ap (or_held (get n one)) nothing ∙ stored ∙ rw (at, on) refl)
            | inr other ↦
                rw (on, nothing, other)
                  (taken ∙ ap (or_held (get n one)) nothing ∙ stored ∙ rw (other, on) refl)
          ]
        ]
        | inr off ↦ elim (Option-cases (last_read lower cfg n rest)) [
          | inr (j, found) ↦ rw (off, found) (skipped ∙ ap (or_held (get n held)) found)
          | inl nothing ↦ rw (nothing, off) (skipped ∙ ap (or_held (get n held)) nothing)
        ]
      ]

  -- A reading is kept exactly if its interface was seen.
  kept-or_held :
      (p : List ℕ → Bool) (n : List ℕ) (o : Option (Sample F)) (i : Option Interface)
      → p n ≡ is_some i
      → only_if (test_at (λ name x. p name) n (or_held o i)) (or_held o i) ≡ or_held none i
  kept-or_held p n none none h = refl
  kept-or_held p n (some x) none h = rw h refl
  kept-or_held p n o (some i) h = rw h refl

module _ {F : Type 0} ⦃fl : Floats F⦄ (scale : ℕ → ℕ → ℕ → ℕ) (lower : List ℕ → List ℕ) where
  -- What is held under a name is the reading, at the instant, of the last wanted interface of the name.
  pub IsNewest : Config → List Interface → ℕ → List ℕ → Option (Sample F) → Type 0
  IsNewest cfg ifaces now n none = All (λ j. j.name ≡ n → IsWanted lower cfg j → ⊥) ifaces
  IsNewest cfg ifaces now n (some y) =
      (before : List Interface) × (i : Interface) × (after : List Interface) × (ifaces
        ≡ before ++ i ∷ after)
      × (y ≡ reading i now)
      × (i.name ≡ n)
      × IsWanted lower cfg i
      × All (λ j. j.name ≡ n → IsWanted lower cfg j → ⊥) after

  reading-IsNewest :
      (cfg : Config) (ifaces : List Interface) (now : ℕ) (n : List ℕ) (y : Option (Sample F))
      (o : Option Interface)
      → y ≡ or_held scale lower cfg none now none o
      → IsLast lower cfg n ifaces o
      → IsNewest cfg ifaces now n y
  unfolding IsLast IsOther IsNewest
  reading-IsNewest cfg ifaces now n y none e h = subst (IsNewest cfg ifaces now n) (sym e) h
  reading-IsNewest cfg ifaces now n y (some i) e (before, after, split, named, wanted, others) =
      subst (IsNewest cfg ifaces now n) (sym e)
        (before, i, after, split, refl, named, wanted, others)

  -- After a call, whatever was held before: under each name the sampler holds the whole reading, taken now,
  -- of the last interface of that name among those that the call read, counting those only that are no
  -- loopback and that the patterns to include match, or, if there are none, the patterns to exclude do
  -- not match; and nothing under a name that no such interface has, so what has disappeared is
  -- forgotten.
  pub sample-keeps :
      (s : Sampler F) (ifaces : List Interface) (now : ℕ) (n : List ℕ)
      → IsNewest s.cfg ifaces now n (get n (sample scale lower s ifaces now).0.prev)
  unfolding sample
  sample-keeps s ifaces now n =
      let held = (sample_all scale lower s.cfg s.self now s.prev ifaces).0 in
      let last = last_read lower s.cfg n ifaces in
      let p = seen lower s.cfg ifaces in
      let found = get-retain (λ name (x : Sample F). p name) n held in
      let at = get-sample_all scale lower s.cfg s.self now n ifaces s.prev in
      let is =
        found
        ∙ ap (λ o. only_if (test_at (λ name x. p name) n o) o) at
        ∙ kept-or_held scale lower s.cfg s.self now p n (get n s.prev) last
            (seen-last_read lower s.cfg n ifaces) in
      reading-IsNewest s.cfg ifaces now n (get n (sample scale lower s ifaces now).0.prev) last is
        (last_read-IsLast lower s.cfg n ifaces)
