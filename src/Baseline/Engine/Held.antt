-- ===== src/Baseline/Engine/Held.antt =====
-- internal/baseline/engine.go: what the engine holds for a key, against the samples that it has observed.
use mathlib.Core.Path.{subst}
use i_pulse.Base.{
  ℕ, ℤ, pos, pos_part, leb_ℤ, ltb_ℤ, ◌-◌, ◌≡◌, refl, ap, sym, ◌∙◌, true, false, List, [], ◌∷◌, ◌++◌,
  none, some, arith, inl, inr, Option-cases, ltb, length-drop, ◌<◌, ◌==◌, length, last_of,
  last_of-push, drop, Bool-cases, length-append, Floats, bind-some, string_eq,
}
use i_pulse.Util.Stats.{Stats, describe}
use i_pulse.Baseline.Engine.{
  dated, with_statistics, Key, Baseline, Config, cut, accumulate, recompute, add, key_eq,
}

module _ {F : Type 0} ⦃fl : Floats F⦄ where
  pub cut-newest :
      (size : ℤ) (l : List F)
      → ltb_ℤ (pos 0) size ≡ true
      → cut size l ≡ some (last_of (pos_part size) l)
  cut-newest size l h =
      let same : ltb_ℤ size (pos (length l)) ≡ ltb (pos_part size) (length l) = ground (arith, h) in
      let inside : ltb_ℤ size (pos 0) ≡ false = ground (arith, h) in
      elim (Bool-cases (ltb (pos_part size) (length l))) [
        | inl over ↦ rw (same, over, inside) refl
        | inr fits ↦
            let none_over : length l - pos_part size ≡ 0 = ground (arith, fits) in
            rw (same, fits) (ap (λ k. some (drop k l)) (sym none_over))
      ]

  -- A baseline that holds the values, of which the oldest is the first.
  pub record Holds (cfg : Config F) (k : Key) (b : Baseline F) (vs : List F) : Type 0 where
    pub key : b.key ≡ k
    pub samples : b.samples ≡ length vs
    pub window : b.window ≡ last_of (pos_part cfg.window_size) vs

  -- And whose derived fields are up to date.
  pub record IsCurrent (cfg : Config F) (b : Baseline F) (at : ℕ) : Type 0 where
    pub established : b.established ≡ leb_ℤ cfg.min_observations (pos b.samples)
    pub updated_at : b.updated_at ≡ at
    pub statistics :
        (s : Stats F) × (describe b.window ≡ some s) × (b.median ≡ s.median) × (b.mad ≡ s.mad)

  accumulate-Holds :
      (cfg : Config F) (key : Key) (b : Baseline F) (vs : List F) (value : F) (window : List F)
      → window ≡ last_of (pos_part cfg.window_size) (b.window ++ value ∷ [])
      → Holds cfg key b vs
      → Holds cfg key (accumulate cfg b value window) (vs ++ value ∷ [])
  unfolding accumulate
  accumulate-Holds cfg key b vs value window newest h = record {
    key = h.key;
    samples = omega (arith, h.samples, length-append vs (value ∷ []));
    window =
        newest
        ∙ ap (λ l. last_of (pos_part cfg.window_size) (l ++ value ∷ [])) h.window
        ∙ last_of-push (pos_part cfg.window_size) vs value;
  }

  window_filled :
      (cfg : Config F) (key : Key) (b : Baseline F) (vs : List F) (value : F)
      → ltb_ℤ (pos 0) cfg.window_size ≡ true
      → Holds cfg key b (vs ++ value ∷ [])
      → (length b.window == 0) ≡ false
  window_filled cfg key b vs value wide h =
      let n = length (vs ++ value ∷ []) in
      let w = pos_part cfg.window_size in
      let some_room : 0 < w = ground (arith, wide) in
      let long : length b.window ≡ n - (n - w) =
        ap length h.window ∙ length-drop (n - w) (vs ++ value ∷ []) in
      let more = length-append vs (value ∷ []) in ground (arith, long, some_room, more)

  recompute-Holds :
      (cfg : Config F) (key : Key) (b c : Baseline F) (vs : List F)
      → (length b.window == 0) ≡ false
      → recompute b ≡ some c
      → Holds cfg key b vs
      → Holds cfg key c vs
        × ((s : Stats F) × (describe c.window ≡ some s) × (c.median ≡ s.median) × (c.mad ≡ s.mad))
  unfolding recompute
  recompute-Holds cfg key b c vs filled e h = elim (Option-cases (describe b.window)) [
    | inl panics ↦
        let nothing : recompute b ≡ none = rw (filled, panics) refl in absurd (cc (sym nothing ∙ e))
    | inr (s, described) ↦
        let it : recompute b ≡ some (with_statistics b s) = rw (filled, described) refl in
        let is : with_statistics b s ≡ c = cc (sym it ∙ e) in
        subst
          (λ c.
            Holds cfg key c vs
            × ((s : Stats F) × (describe c.window ≡ some s)
                × (c.median ≡ s.median)
                × (c.mad ≡ s.mad)))
          is
          (
            record { key = h.key; samples = h.samples; window = h.window },
            (s, described, refl, refl),
          )
  ]

  -- A value folded into a baseline that holds some values.
  pub add-Holds :
      (cfg : Config F) (key : Key) (b c : Baseline F) (vs : List F) (value : F) (at : ℕ)
      → ltb_ℤ (pos 0) cfg.window_size ≡ true
      → Holds cfg key b vs
      → add cfg b value at ≡ some c
      → Holds cfg key c (vs ++ value ∷ []) × IsCurrent cfg c at
  unfolding add
  add-Holds cfg key b c vs value at wide h e =
      let (window, taken, rest) = bind-some (cut cfg.window_size (b.window ++ value ∷ [])) _ c e in
      let newest : window ≡ last_of (pos_part cfg.window_size) (b.window ++ value ∷ []) =
        cc (taken, cut-newest cfg.window_size (b.window ++ value ∷ []) wide) in
      let folded = accumulate-Holds cfg key b vs value window newest h in
      let (d, computed, last) = bind-some (recompute (accumulate cfg b value window)) _ c rest in
      let filled = window_filled cfg key (accumulate cfg b value window) vs value wide folded in
      let (held, stats) = recompute-Holds cfg key _ d (vs ++ value ∷ []) filled computed folded in
      let is : dated cfg at d ≡ c = cc last in
      subst (λ c. Holds cfg key c (vs ++ value ∷ []) × IsCurrent cfg c at) is
        (
          record { key = held.key; samples = held.samples; window = held.window },
          record { established = refl; updated_at = refl; statistics = stats },
        )
