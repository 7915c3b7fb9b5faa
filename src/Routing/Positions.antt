-- ===== src/Routing/Positions.antt =====
-- internal/routing/traceroute.go: the positions at which two paths differ.
use Prim.{⊥}
use mathlib.Core.Path.{subst}
use i_pulse.Base.{
  ℕ, zero, suc, ◌+◌, ◌≤◌, ◌<◌, ◌≡◌, ◌≢◌, ◌⊎◌, inl, inr, refl, ap, ◌∙◌, Bool, true, false, not, ◌||◌,
  ◌&&◌, List, [], ◌∷◌, some, arith, Bool-cases, Option-cases, All, length, get_elem?, if◌then◌else◌,
}
use i_pulse.Util.Glob.{same}
use i_pulse.Util.Glob.Occurrences.{same_iff}
use i_pulse.Routing.{Hop, addr_at}

module _ (before after : List Hop) where
  -- Both paths have an answer at a position, from different addresses.
  abbrev pub IsMoved : ℕ → Type 0
  IsMoved k =
      (b : Hop) × (a : Hop) × (get_elem? before k ≡ some b)
      × (get_elem? after k ≡ some a)
      × (b.addr ≢ [])
      × (a.addr ≢ [])
      × (b.addr ≢ a.addr)

  abbrev pub is_moved : ℕ → Bool
  is_moved k =
      let b = addr_at before k in
      let a = addr_at after k in not (same b [] || same a []) && not (same b a)

  -- The positions that differ, of the next so many.
  abbrev pub moved_from : ℕ → ℕ → List ℕ
  moved_from zero i = []
  moved_from (suc n) i = let rest = moved_from n (suc i) in if is_moved i then i ∷ rest else rest

abbrev pub IsIn : ℕ → List ℕ → Type 0
IsIn k [] = ⊥
IsIn k (x ∷ xs) = (k ≡ x) ⊎ IsIn k xs

-- Every number is below those after it.
abbrev pub IsAscending : List ℕ → Type 0
IsAscending [] = Unit
IsAscending (k ∷ ks) = All (λ j. k < j) ks × IsAscending ks

-- The hop number of the first position, 0 if there is none.
abbrev pub first_hop : List ℕ → ℕ
first_hop [] = 0
first_hop (k ∷ ks) = suc k

not_same : (a b : List ℕ) → same a b ≡ false → a ≢ b
not_same a b h = λ e. absurd (cc (h, (same_iff a b).1 e))

answered :
    (hops : List Hop) (k : ℕ)
    → addr_at hops k ≢ []
    → (h : Hop) × (get_elem? hops k ≡ some h) × (h.addr ≡ addr_at hops k)
unfolding addr_at
answered hops k h = elim (Option-cases (get_elem? hops k)) [
  | inl e ↦ absurd (h (rw (addr_at, e) refl))
  | inr (x, e) ↦ (x, e, rw (addr_at, e) refl)
]

addr_at-on :
    (hops : List Hop) (k : ℕ) (h : Hop) → get_elem? hops k ≡ some h → addr_at hops k ≡ h.addr
unfolding addr_at
addr_at-on hops k h e = rw (addr_at, e) refl

stopped : (p q r : Bool) → (not (p || q) && not r) ≡ true → (p ≡ false) × (q ≡ false) × (r ≡ false)
stopped true q r h = absurd (cc h)
stopped false true r h = absurd (cc h)
stopped false false true h = absurd (cc h)
stopped false false false h = (refl, refl, refl)

differs : (a b : List ℕ) → a ≢ b → same a b ≡ false
differs a b h = elim (Bool-cases (same a b)) [ inl e ↦ absurd (h ((same_iff a b).0 e)) | inr e ↦ e ]

pub inside : (hops : List Hop) (k : ℕ) (h : Hop) → get_elem? hops k ≡ some h → k < length hops
inside [] k h e = absurd (cc e)
inside (x ∷ hops) zero h e = omega arith
inside (x ∷ hops) (suc k) h e = let r = inside hops k h e in omega (arith, r)

first_or_later : (i k : ℕ) → i ≤ k → (k ≡ i) ⊎ (suc i ≤ k)
first_or_later i k h = ground (arith, h)

module _ (before after : List Hop) where
  pub is_moved_sound : (k : ℕ) → is_moved before after k ≡ true → IsMoved before after k
  is_moved_sound k h =
      let b = addr_at before k in
      let a = addr_at after k in
      let (p, q, r) = stopped (same b []) (same a []) (same b a) h in
      let (x, ex, eb) = answered before k (not_same b [] p) in
      let (y, ey, ea) = answered after k (not_same a [] q) in
      (
        x,
        y,
        ex,
        ey,
        (λ e. not_same b [] p (cc (e, eb))),
        (λ e. not_same a [] q (cc (e, ea))),
        λ e. not_same b a r (cc (e, ea, eb)),
      )

  pub is_moved_complete : (k : ℕ) → IsMoved before after k → is_moved before after k ≡ true
  is_moved_complete k (b, a, eb, ea, nb, na, ne) =
      rw
        (
          addr_at-on before k b eb,
          addr_at-on after k a ea,
          differs b.addr [] nb,
          differs a.addr [] na,
          differs b.addr a.addr ne,
        )
        refl

  moved_from-above : (m n i : ℕ) → m ≤ i → All (λ j. m ≤ j) (moved_from before after n i)
  moved_from-above m zero i h = tt
  moved_from-above m (suc n) i h = elim (Bool-cases (is_moved before after i)) [
    | inl on ↦ rw on (h, moved_from-above m n (suc i) (omega (arith, h)))
    | inr off ↦ rw off (moved_from-above m n (suc i) (omega (arith, h)))
  ]

  pub moved_from-IsAscending : (n i : ℕ) → IsAscending (moved_from before after n i)
  moved_from-IsAscending zero i = tt
  moved_from-IsAscending (suc n) i = elim (Bool-cases (is_moved before after i)) [
    | inl on ↦
        rw on (moved_from-above (suc i) n (suc i) (omega arith), moved_from-IsAscending n (suc i))
    | inr off ↦ rw off (moved_from-IsAscending n (suc i))
  ]

  pub moved_from_sound :
      (n i k : ℕ) → IsIn k (moved_from before after n i) → is_moved before after k ≡ true
  moved_from_sound zero i k h = elim h [ ]
  moved_from_sound (suc n) i k h = elim (Bool-cases (is_moved before after i)) [
    | inl on ↦
        let found : IsIn k (i ∷ moved_from before after n (suc i)) =
          subst
            (λ b. IsIn k (
              if b
              then i ∷ moved_from before after n (suc i)
              else moved_from before after n (suc i)))
            on h in
        elim found [
          | inl here ↦ ap (is_moved before after) here ∙ on
          | inr later ↦ moved_from_sound n (suc i) k later
        ]
    | inr off ↦ moved_from_sound n (suc i) k (
        subst
          (λ b. IsIn k (
            if b then i ∷ moved_from before after n (suc i) else moved_from before after n (suc i)))
          off h)
  ]

  pub moved_from_complete :
      (n i k : ℕ)
      → i ≤ k
      → k < i + n
      → is_moved before after k ≡ true
      → IsIn k (moved_from before after n i)
  moved_from_complete zero i k low high h = absurd (omega (arith, low, high))
  moved_from_complete (suc n) i k low high h = elim (Bool-cases (is_moved before after i)) [
    | inl on ↦ rw on (elim (first_or_later i k low) [
      | inl here ↦ inl here
      | inr later ↦ inr (moved_from_complete n (suc i) k later (omega (arith, high)) h)
    ])
    | inr off ↦ rw off (elim (first_or_later i k low) [
      | inl here ↦ absurd (cc (h, off, ap (is_moved before after) here))
      | inr later ↦ moved_from_complete n (suc i) k later (omega (arith, high)) h
    ])
  ]
