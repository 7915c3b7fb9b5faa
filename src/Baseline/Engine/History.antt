-- ===== src/Baseline/Engine/History.antt =====
-- internal/baseline/engine.go: the engine over any sequence of observations.
use mathlib.Core.Path.{subst}
use i_pulse.Base.{
  ℕ, pos, pos_part, leb_ℤ, ltb_ℤ, ◌+◌, ◌≡◌, ◌≢◌, refl, ap, sym, ◌∙◌, Bool, true, false, not, ◌&&◌,
  ◌||◌, List, [], ◌∷◌, ◌++◌, String, Option, none, some, arith, inl, inr, Bool-cases, ◌==◌,
  if◌then◌else◌, length, Floats, ◌>>=◌, bind-some, get, get-put, string_eq,
}
use i_pulse.Baseline.Engine.{
  Key, Baseline, Config, Engine, Calendar, observe, observe_key, key_of, blank_baseline, key_eq,
  new_engine, normalised, usable, get_baseline, fresh_baseline, without_window, or_fresh, shown,
}
use i_pulse.Baseline.Engine.Held.{Holds}
use i_pulse.Baseline.Engine.Folding.{
  Knows, Folds, normalised-window, normalised-minimum, observe_key-Folds,
}

module _ (F : Type 0) where
  pub record Sample : Type 0 where
    pub metric : String
    pub dimension : String
    pub value : F
    pub at : ℕ

module _ {F : Type 0} ⦃fl : Floats F⦄ (cal : Calendar) where
  -- The engine after the samples, of which the newest is the first of the list.
  unfoldable pub observe_all : Engine F → List (Sample F) → Option (Engine F)
  observe_all e [] = some e
  observe_all e (x ∷ xs) = do
    before ← observe_all e xs
    r ← observe cal before x.metric x.dimension x.value x.at
    some r.0

  -- Whether a sample counts for a key.
  unfoldable pub counts : Config F → Key → Sample F → Bool
  counts cfg k x =
      not (fl.is_nan x.value || fl.is_inf x.value)
      && key_eq.beq (key_of cal cfg x.metric x.dimension x.at) k

  -- The values for a key, the oldest first, and the instant of the newest.
  unfoldable pub values : Config F → Key → List (Sample F) → List F
  values cfg k [] = []
  values cfg k (x ∷ xs) =
      let rest = values cfg k xs in if counts cfg k x then rest ++ x.value ∷ [] else rest

  unfoldable pub latest : Config F → Key → List (Sample F) → ℕ
  latest cfg k [] = 0
  latest cfg k (x ∷ xs) = let rest = latest cfg k xs in if counts cfg k x then x.at else rest

  filled : (vs : List F) (value : F) → vs ++ value ∷ [] ≢ []
  filled [] value = λ e. absurd (cc e)
  filled (v ∷ vs) value = λ e. absurd (cc e)

  put-Knows :
      (e : Engine F) (k j : Key) (value : F) (t at : ℕ) (vs : Key → List F)
      (r : Engine F × Baseline F × Bool)
      → Folds e k value at (vs k) r
      → Knows e.cfg j (vs j) t (get j e.baselines)
      → Knows e.cfg j
          (if key_eq.beq k j then vs j ++ value ∷ [] else vs j)
          (if key_eq.beq k j then at else t)
          (get j r.0.baselines)
  put-Knows e k j value t at vs r f h =
      let found : get j r.0.baselines
          ≡ (if key_eq.beq k j then some f.next else get j e.baselines) =
        ap (get j) f.put_in ∙ get-put k j f.next e.baselines in
      elim (Bool-cases (key_eq.beq k j)) [
        | inl same ↦
            let at_j : some f.next ≡ get j r.0.baselines = sym (found ∙ rw same refl) in
            let known : Knows e.cfg j (vs j ++ value ∷ []) at (some f.next) = (
              subst (λ k. Holds e.cfg k f.next (vs k ++ value ∷ [])) ((key_eq.beq_iff k j).0 same)
                  f.held,
              f.current,
              filled (vs j) value,
            ) in
            rw same (subst (Knows e.cfg j (vs j ++ value ∷ []) at) at_j known)
        | inr other ↦
            let at_j : get j e.baselines ≡ get j r.0.baselines = sym (found ∙ rw other refl) in
            rw other (subst (Knows e.cfg j (vs j) t) at_j h)
      ]

  abbrev pub KnowsAll : Config F → List (Sample F) → Engine F → Type 0
  KnowsAll cfg xs e =
      (k : Key) → Knows cfg k (values cfg k xs) (latest cfg k xs) (get k e.baselines)

  finite-Folds :
      (e : Engine F) (x : Sample F) (xs : List (Sample F)) (r : Engine F × Baseline F × Bool)
      → ltb_ℤ (pos 0) e.cfg.window_size ≡ true
      → ltb_ℤ (pos 0) e.cfg.min_observations ≡ true
      → KnowsAll e.cfg xs e
      → (fl.is_nan x.value || fl.is_inf x.value) ≡ false
      → observe cal e x.metric x.dimension x.value x.at ≡ some r
      → let k = key_of cal e.cfg x.metric x.dimension x.at in
        Folds e k x.value x.at (values e.cfg k xs) r
  unfolding observe
  finite-Folds e x xs r wide positive h finite seen =
      let k = key_of cal e.cfg x.metric x.dimension x.at in
      let here : observe cal e x.metric x.dimension x.value x.at ≡ observe_key e k x.value x.at =
        rw finite refl in
      observe_key-Folds e k x.value x.at (values e.cfg k xs) (latest e.cfg k xs) r wide positive
        (h k) (sym here ∙ seen)

  observe-KnowsAll :
      (e : Engine F) (x : Sample F) (xs : List (Sample F)) (r : Engine F × Baseline F × Bool)
      → ltb_ℤ (pos 0) e.cfg.window_size ≡ true
      → ltb_ℤ (pos 0) e.cfg.min_observations ≡ true
      → KnowsAll e.cfg xs e
      → observe cal e x.metric x.dimension x.value x.at ≡ some r
      → (r.0.cfg ≡ e.cfg) × KnowsAll e.cfg (x ∷ xs) r.0
  unfolding observe values latest counts
  observe-KnowsAll e x xs r wide positive h seen =
      elim (Bool-cases (fl.is_nan x.value || fl.is_inf x.value)) [
        | inl odd ↦
            let here : observe cal e x.metric x.dimension x.value x.at
                ≡ some (e, blank_baseline, false) =
              rw odd refl in
            let is : (e, blank_baseline, false) ≡ r = cc (sym here ∙ seen) in
            (
              ap (λ r. r.0.cfg) (sym is),
              λ k. simp odd (
                  subst
                    (λ r.
                      Knows e.cfg k (values e.cfg k xs) (latest e.cfg k xs) (get k r.0.baselines))
                    is (h k)),
            )
        | inr finite ↦
            let f = finite-Folds e x xs r wide positive h finite seen in
            (
              f.cfg,
              λ k. simp finite (
                  put-Knows e (key_of cal e.cfg x.metric x.dimension x.at) k x.value
                    (latest e.cfg k xs) x.at (λ k. values e.cfg k xs) r f (h k)),
            )
      ]

  observe_all-Known :
      (cfg : Config F) (xs : List (Sample F)) (e : Engine F)
      → observe_all (new_engine cfg) xs ≡ some e
      → (e.cfg ≡ normalised cfg) × KnowsAll (normalised cfg) xs e
  unfolding observe_all new_engine values latest get
  observe_all-Known cfg [] e h =
      let is : new_engine cfg ≡ e = cc h in
      (
        ap (λ e. e.cfg) (sym is),
        λ k. subst (λ e. Knows (normalised cfg) k [] 0 (get k e.baselines)) is refl,
      )
  observe_all-Known cfg (x ∷ xs) e h =
      let (before, got, rest) = bind-some (observe_all (new_engine cfg) xs) _ e h in
      let (r, seen, last) =
        bind-some (observe cal before x.metric x.dimension x.value x.at) _ e rest in
      let (same, known) = observe_all-Known cfg xs before got in
      let wide =
        subst (λ c. ltb_ℤ (pos 0) c.window_size ≡ true) (sym same) (normalised-window cfg) in
      let positive =
        subst (λ c. ltb_ℤ (pos 0) c.min_observations ≡ true) (sym same) (normalised-minimum cfg) in
      let all = subst (λ c. KnowsAll c xs before) (sym same) known in
      let (kept, after) = observe-KnowsAll before x xs r wide positive all seen in
      let is : r.0 ≡ e = cc last in
      (
        ap (λ e. e.cfg) (sym is) ∙ kept ∙ same,
        subst (KnowsAll (normalised cfg) (x ∷ xs)) is
            (subst (λ c. KnowsAll c (x ∷ xs) r.0) same after),
      )

  -- After any observations from a new engine, every bucket that counted a finite value holds: the number
  -- of all its values, the window of its newest ones, at most as many as configured, whether their number
  -- has reached the configured minimum, the instant of the newest, and the median and the deviation of the
  -- window; and no other bucket exists.
  pub observe_all-Knows :
      (cfg : Config F) (xs : List (Sample F)) (e : Engine F) (k : Key)
      → observe_all (new_engine cfg) xs ≡ some e
      → let c = normalised cfg in Knows c k (values c k xs) (latest c k xs) (get k e.baselines)
  observe_all-Knows cfg xs e k h = (observe_all-Known cfg xs e h).1 k

  -- What an observation returns, for an engine of the configuration that has made the observations.
  IsPrior : Config F → Engine F → Sample F → List (Sample F) → Engine F × Baseline F × Bool → Type 0
  IsPrior c e x xs r =
      let k = key_of cal c x.metric x.dimension x.at in
      let n = length (values c k xs) in
      (get_baseline cal e x.metric x.dimension x.at ≡ none
        → r.1 ≡ fresh_baseline k x.value x.value x.at)
      × ((b : Baseline F) → get_baseline cal e x.metric x.dimension x.at ≡ some b → r.1 ≡ b)
      × (r.1.samples ≡ n)
      × (usable r.1 ≡ leb_ℤ c.min_observations (pos n))
      × (r.2 ≡ (n + 1 == pos_part c.min_observations))

  no_baseline :
      (k : Key) (v : F) (t : ℕ) (o : Option (Baseline F))
      → shown o ≡ none
      → without_window (or_fresh k v t o) ≡ fresh_baseline k v v t
  no_baseline k v t none h = refl
  no_baseline k v t (some b) h = absurd (cc h)

  that_baseline :
      (k : Key) (v : F) (t : ℕ) (o : Option (Baseline F)) (b : Baseline F)
      → shown o ≡ some b
      → without_window (or_fresh k v t o) ≡ b
  that_baseline k v t none b h = absurd (cc h)
  that_baseline k v t (some c) b h = cc h

  Folds-IsPrior :
      (e : Engine F) (x : Sample F) (xs : List (Sample F)) (r : Engine F × Baseline F × Bool)
      → ltb_ℤ (pos 0) e.cfg.min_observations ≡ true
      → (let k = key_of cal e.cfg x.metric x.dimension x.at in
          Folds e k x.value x.at (values e.cfg k xs) r)
      → IsPrior e.cfg e x xs r
  unfolding usable IsPrior get_baseline
  Folds-IsPrior e x xs r positive f =
      let k = key_of cal e.cfg x.metric x.dimension x.at in
      let o = get k e.baselines in
      (
        (λ h. f.prior ∙ no_baseline k x.value x.at o h),
        (λ b h. f.prior ∙ that_baseline k x.value x.at o b h),
        f.prior_samples,
        ground (arith, f.prior_established, f.prior_samples, positive),
        f.becomes,
      )

  -- After any observations from a new engine, observing one more finite value returns the baseline that
  -- `Get` would have returned for its instant before, or an empty one of the new value if there is none;
  -- so it counts the earlier values of its bucket and not the new one, and may be used exactly when they
  -- have reached the configured minimum; and the bucket is reported as newly established exactly when the
  -- new value is the one that reaches the minimum.
  pub observe-IsPrior :
      (cfg : Config F) (xs : List (Sample F)) (e : Engine F) (x : Sample F)
      (r : Engine F × Baseline F × Bool)
      → observe_all (new_engine cfg) xs ≡ some e
      → (fl.is_nan x.value || fl.is_inf x.value) ≡ false
      → observe cal e x.metric x.dimension x.value x.at ≡ some r
      → let c = normalised cfg in
        let k = key_of cal c x.metric x.dimension x.at in
        let n = length (values c k xs) in
        (get_baseline cal e x.metric x.dimension x.at ≡ none
          → r.1 ≡ fresh_baseline k x.value x.value x.at)
        × ((b : Baseline F) → get_baseline cal e x.metric x.dimension x.at ≡ some b → r.1 ≡ b)
        × (r.1.samples ≡ n)
        × (usable r.1 ≡ leb_ℤ c.min_observations (pos n))
        × (r.2 ≡ (n + 1 == pos_part c.min_observations))
  unfolding IsPrior
  observe-IsPrior cfg xs e x r h finite seen =
      let (same, known) = observe_all-Known cfg xs e h in
      let wide =
        subst (λ c. ltb_ℤ (pos 0) c.window_size ≡ true) (sym same) (normalised-window cfg) in
      let positive =
        subst (λ c. ltb_ℤ (pos 0) c.min_observations ≡ true) (sym same) (normalised-minimum cfg) in
      let all = subst (λ c. KnowsAll c xs e) (sym same) known in
      let f = finite-Folds e x xs r wide positive all finite seen in
      subst (λ c. IsPrior c e x xs r) same (Folds-IsPrior e x xs r positive f)
