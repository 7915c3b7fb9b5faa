-- ===== src/Routing/Changes.antt =====
-- internal/routing/traceroute.go: what `Compare` counts.
use mathlib.Core.Path.{subst}
use i_pulse.Base.{
  ℕ, ℤ, pos, negsuc, pos_part, ltb_ℤ, zero, suc, ◌+◌, ◌≤◌, ◌<◌, ◌≡◌, ◌↔◌, inl, inr, refl, sym, ◌∙◌,
  Bool, true, false, not, ◌||◌, ◌&&◌, List, [], ◌∷◌, arith, Bool-cases, length, sub_ℕ,
  if◌then◌else◌, ◌==◌,
}
use i_pulse.Util.Glob.{same}
use i_pulse.Routing.{
  Hop, MeasuredPath, Diff, addr_at, compare_hop, compare_from, longer, compare, hop_count,
}
use i_pulse.Routing.Positions.{
  IsMoved, is_moved, moved_from, IsIn, IsAscending, first_hop, inside, is_moved_sound,
  is_moved_complete, moved_from-IsAscending, moved_from_sound, moved_from_complete,
}

-- What the loop adds to a difference.
abbrev IsTally : Diff → List ℕ → Diff → Type 0
IsTally d ks e =
    (e.hop_count_delta ≡ d.hop_count_delta)
    × (e.changed_hops ≡ d.changed_hops + length ks)
    × (e.first_change ≡ (if d.first_change == 0 then first_hop ks else d.first_change))

keeps_first :
    (i : ℕ) (ks : List ℕ) (f : ℕ)
    → (let g = if f == 0 then suc i else f in if g == 0 then first_hop ks else g)
      ≡ (if f == 0 then suc i else f)
keeps_first i ks f = ground arith

-- The two tests of the loop's body.
branches {ℓ} :
    {A : Type ℓ} (p q r : Bool) (x y : A)
    → (if p || q then x else if r then x else y) ≡ (if not (p || q) && not r then y else x)
branches true q r x y = refl
branches false true r x y = refl
branches false false true x y = refl
branches false false false x y = refl

longer-above : (before after : List Hop) → length before ≤ longer before after
unfolding longer
longer-above before after = ground arith

exceeds :
    (t : ℤ) (c m : ℕ)
    → c ≡ m
    → (ltb_ℤ (if ltb_ℤ t (pos 0) then pos 0 else t) (pos c) ≡ true) ↔ (pos_part t < m)
exceeds (pos n) c m e = ground (arith, e)
exceeds (negsuc n) c m e = ground (arith, e)

module _ (before after : List Hop) where
  abbrev counted : ℕ → Diff → Diff
  counted i d = record d {
    changed_hops = suc d.changed_hops;
    first_change = if d.first_change == 0 then suc i else d.first_change;
  }

  compare_hop-branch :
      (i : ℕ) (d : Diff)
      → compare_hop before after i d ≡ (if is_moved before after i then counted i d else d)
  unfolding compare_hop
  compare_hop-branch i d =
      let b = addr_at before i in
      let a = addr_at after i in branches (same b []) (same a []) (same b a) d (counted i d)

  -- The loop counts the positions that differ, and keeps the first.
  compare_from-counts :
      (n i : ℕ) (d : Diff)
      → IsTally d (moved_from before after n i) (compare_from before after n i d)
  unfolding compare_from
  compare_from-counts zero i d = (refl, omega arith, ground arith)
  compare_from-counts (suc n) i d = elim (Bool-cases (is_moved before after i)) [
    | inl on ↦
        let here : compare_hop before after i d ≡ counted i d =
          compare_hop-branch i d ∙ rw on refl in
        let (x, y, z) = compare_from-counts n (suc i) (counted i d) in
        let all : moved_from before after (suc n) i ≡ i ∷ moved_from before after n (suc i) =
          rw on refl in
        subst
          (λ c.
            IsTally d (moved_from before after (suc n) i) (compare_from before after n (suc i) c))
          (sym here)
          (subst (λ ks. IsTally d ks (compare_from before after n (suc i) (counted i d))) (sym all)
            (
              x,
              y ∙ omega arith,
              z ∙ keeps_first i (moved_from before after n (suc i)) d.first_change,
            ))
    | inr off ↦
        let here : compare_hop before after i d ≡ d = compare_hop-branch i d ∙ rw off refl in
        let all : moved_from before after (suc n) i ≡ moved_from before after n (suc i) =
          rw off refl in
        subst
          (λ c.
            IsTally d (moved_from before after (suc n) i) (compare_from before after n (suc i) c))
          (sym here)
          (subst (λ ks. IsTally d ks (compare_from before after n (suc i) d)) (sym all)
            (compare_from-counts n (suc i) d))
  ]

-- What a difference says of two paths: its positions, in order.
pub IsDifference : MeasuredPath → MeasuredPath → ℤ → Diff → Type 0
IsDifference before after tolerance d =
    (ks : List ℕ) × IsAscending ks
    × ((k : ℕ) → IsIn k ks ↔ IsMoved before.hops after.hops k)
    × (d.hop_count_delta ≡ sub_ℕ (hop_count after) (hop_count before))
    × (d.changed_hops ≡ length ks)
    × (d.first_change ≡ first_hop ks)
    × ((d.changed ≡ true) ↔ (pos_part tolerance < length ks))

-- What `Compare` reports of two paths: there is an ascending list of exactly those positions at which
-- both paths have an answering hop, with different addresses; the number of changed hops is its
-- length, the first change is the hop number of its head, 0 if it is empty, and the change is worth
-- reporting exactly when its length exceeds the tolerance, 0 for a negative one; the delta is the
-- difference of the two hop counts.
pub compare-IsDifference :
    (before after : MeasuredPath) (tolerance : ℤ)
    → IsDifference before after tolerance (compare before after tolerance)
unfolding compare IsDifference
compare-IsDifference before after tolerance =
    let b = before.hops in
    let a = after.hops in
    let n = longer b a in
    let start : Diff = record {
      changed = false;
      hop_count_delta = sub_ℕ (hop_count after) (hop_count before);
      changed_hops = 0;
      first_change = 0;
    } in
    let (x, y, z) = compare_from-counts b a n 0 start in
    let amount : (compare_from b a n 0 start).changed_hops ≡ length (moved_from b a n 0) =
      y ∙ omega arith in
    (
      moved_from b a n 0,
      moved_from-IsAscending b a n 0,
      (λ k. (
        (λ h. is_moved_sound b a k (moved_from_sound b a n 0 k h)),
        λ h.
            let low : k < length b = inside b k h.0 h.2 in
            let high : k < 0 + n = omega (arith, low, longer-above b a) in
            moved_from_complete b a n 0 k (omega arith) high (is_moved_complete b a k h),
      )),
      x,
      amount,
      z,
      exceeds tolerance (compare_from b a n 0 start).changed_hops (length (moved_from b a n 0))
          amount,
    )
