-- ===== src/Util/Stats/Ranks.antt =====
-- internal/util/stats.go: the percentiles stay inside the sorted values.
use i_pulse.Base.{
  ℕ, suc, ◌-◌, ◌≤◌, ◌<◌, ◌≡◌, refl, ap, ◌∙◌, false, List, [], ◌∷◌, map, Option, some, arith, inl,
  inr, Bool-cases, ◌==◌, length, Floats, ◌>>=◌, get_elem?-inside,
}
use i_pulse.Util.Stats.{
  Stats, insert, sort, goes_before, rank_of, between, percentile_sorted, mad_sorted, describe,
  describe_sorted, nought,
}

-- A read that does not fail.
abbrev pub Found {ℓ} : {A : Type ℓ} → Option A → Type ℓ
Found {A} o = (a : A) × (o ≡ some a)

pub bind-Found {ℓ κ} :
    {A : Type ℓ} {B : Type κ} (o : Option A) (f : A → Option B)
    → Found o
    → ((a : A) → Found (f a))
    → Found (o >>= f)
bind-Found o f (a, e) h = ((h a).0, rw e (h a).1)

-- What the code relies on of float64: for a percentage p below 100, p/100 · n rounded up or down is
-- not above n.
unfoldable pub RanksFit : (F : Type 0) ⦃fl : Floats F⦄ → Type 0
RanksFit F ⦃fl⦄ =
    (p n : ℕ)
    → p < 100
    → (fl.floor_int (rank_of (fl.decimal p 0) n) ≤ n)
      × (fl.ceil_int (rank_of (fl.decimal p 0) n) ≤ n)

module _ {F : Type 0} ⦃fl : Floats F⦄ where
  length-insert : (x : F) (xs : List F) → length (insert x xs) ≡ suc (length xs)
  unfolding insert
  length-insert x [] = refl
  length-insert x (y ∷ ys) = elim (Bool-cases (goes_before y x)) [
    | inl later ↦ rw later (ap suc (length-insert x ys))
    | inr first ↦ rw first refl
  ]

  pub length-sort : (xs : List F) → length (sort xs) ≡ length xs
  unfolding sort
  length-sort [] = refl
  length-sort (x ∷ xs) = length-insert x (sort xs) ∙ ap suc (length-sort xs)

  length-map : (f : F → F) (xs : List F) → length (map f xs) ≡ length xs
  length-map f [] = refl
  length-map f (x ∷ xs) = ap suc (length-map f xs)

  between-Found :
      (xs : List F) (rank : F)
      → fl.floor_int rank < length xs
      → fl.ceil_int rank < length xs
      → Found (between xs rank)
  unfolding between
  between-Found xs rank low high =
      let (a, at_low) = get_elem?-inside xs (fl.floor_int rank) low in
      let (b, at_high) = get_elem?-inside xs (fl.ceil_int rank) high in
      elim (Bool-cases (fl.floor_int rank == fl.ceil_int rank)) [
        | inl same ↦ (a, rw same at_low)
        | inr apart ↦
            let frac = fl.sub rank (fl.of_count (fl.floor_int rank)) in
            (
              fl.add (fl.mul a (fl.sub (fl.decimal 1 0) frac)) (fl.mul b frac),
              rw (apart, at_low, at_high) refl,
            )
      ]

  percentile-Found :
      RanksFit F
      → (xs : List F) (p : ℕ) → p < 100
      → 0 < length xs
      → Found (percentile_sorted xs (fl.decimal p 0))
  unfolding percentile_sorted RanksFit
  percentile-Found fit [] p small some_values = elim some_values [ ]
  percentile-Found fit (x ∷ []) p small some_values = (x, refl)
  percentile-Found fit (x ∷ y ∷ xs) p small some_values =
      let not_0 : (length (x ∷ y ∷ xs) == 0) ≡ false = ground arith in
      let not_1 : (length (x ∷ y ∷ xs) == 1) ≡ false = ground arith in
      let last = get_elem?-inside (x ∷ y ∷ xs) (length (x ∷ y ∷ xs) - 1) (omega arith) in
      let (down, up) = fit p (length (x ∷ y ∷ xs) - 1) small in
      let mid =
        between-Found (x ∷ y ∷ xs) (rank_of (fl.decimal p 0) (length (x ∷ y ∷ xs) - 1))
          (omega (arith, down)) (omega (arith, up)) in
      elim (Bool-cases (fl.le (fl.decimal p 0) nought)) [
        | inl low_case ↦ (x, rw (not_0, not_1, low_case) refl)
        | inr above ↦ elim (Bool-cases (fl.le (fl.decimal 100 0) (fl.decimal p 0))) [
          | inl highest ↦ (last.0, rw (not_0, not_1, above, highest) last.1)
          | inr below ↦ (mid.0, rw (not_0, not_1, above, below) mid.1)
        ]
      ]

  mad-Found : RanksFit F → (xs : List F) (median : F) → 0 < length xs → Found (mad_sorted xs median)
  unfolding mad_sorted
  mad-Found fit xs median some_values =
      let far = map (λ x. fl.abs (fl.sub x median)) xs in
      percentile-Found fit (sort far) 50 (omega arith)
        (omega (arith, length-sort far, length-map (λ x. fl.abs (fl.sub x median)) xs))

  describe_sorted-Found : RanksFit F → (v : List F) → 0 < length v → Found (describe_sorted v)
  unfolding describe_sorted
  describe_sorted-Found fit v h = bind-Found _ _ (get_elem?-inside v 0 h) (λ min.
      bind-Found _ _ (get_elem?-inside v (length v - 1) (omega (arith, h))) (λ max.
        bind-Found _ _ (percentile-Found fit v 50 (omega arith) h) (λ median.
          bind-Found _ _ (percentile-Found fit v 10 (omega arith) h) (λ p10.
            bind-Found _ _ (percentile-Found fit v 25 (omega arith) h) (λ p25.
              bind-Found _ _ (percentile-Found fit v 75 (omega arith) h) (λ p75.
                bind-Found _ _ (percentile-Found fit v 90 (omega arith) h) (λ p90.
                  bind-Found _ _ (percentile-Found fit v 95 (omega arith) h) (λ p95.
                    bind-Found _ _ (percentile-Found fit v 99 (omega arith) h)
                      (λ p99. bind-Found _ _ (mad-Found fit v median h) (λ mad. (_, refl)))))))))))

  -- Describing any values reads no slice out of range, provided that the ranks of float64 do not exceed
  -- the last index.
  pub describe-IsTotal : RanksFit F → (values : List F) → (s : Stats F) × (describe values ≡ some s)
  unfolding describe
  describe-IsTotal fit [] = (_, refl)
  describe-IsTotal fit (x ∷ xs) =
      let (s, e) =
        describe_sorted-Found fit (sort (x ∷ xs)) (omega (arith, length-sort (x ∷ xs))) in
      let some_values : (length (x ∷ xs) == 0) ≡ false = ground arith in (s, rw some_values e)
