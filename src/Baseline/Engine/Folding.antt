-- ===== src/Baseline/Engine/Folding.antt =====
-- internal/baseline/engine.go: one observation, of a key about which the engine knows some values.
use mathlib.Core.Path.{subst}
use i_pulse.Base.{
  ℕ, pos, pos_part, leb_ℤ, ltb_ℤ, ◌+◌, ◌-◌, ◌≡◌, ◌≢◌, refl, ap, sym, ◌∙◌, Bool, true, not, ◌&&◌,
  List, [], ◌∷◌, ◌++◌, Option, none, some, arith, ◌==◌, length, length-append, drop-nil, Floats,
  bind-some, get, put, string_eq,
}
use i_pulse.Baseline.Engine.{
  folded_in, Key, Baseline, Config, Engine, add, observe_key, or_fresh, fresh_baseline, key_eq,
  normalised, without_window,
}
use i_pulse.Baseline.Engine.Held.{Holds, IsCurrent, add-Holds}

module _ {F : Type 0} ⦃fl : Floats F⦄ where
  -- What the engine knows of a key: nothing, if there are no values, or a baseline over the values, at
  -- least one, of which the newest came at the instant.
  abbrev pub Knows : Config F → Key → List F → ℕ → Option (Baseline F) → Type 0
  Knows cfg k vs at none = vs ≡ []
  Knows cfg k vs at (some b) = Holds cfg k b vs × IsCurrent cfg b at × (vs ≢ [])

  pub normalised-window : (cfg : Config F) → ltb_ℤ (pos 0) (normalised cfg).window_size ≡ true
  unfolding normalised
  normalised-window cfg = ground arith

  pub normalised-minimum : (cfg : Config F) → ltb_ℤ (pos 0) (normalised cfg).min_observations ≡ true
  unfolding normalised
  normalised-minimum cfg = ground arith

  fresh-Holds :
      (cfg : Config F) (k : Key) (value : F) (at : ℕ)
      → Holds cfg k (fresh_baseline k value value at) []
  fresh-Holds cfg k value at = record {
    key = refl;
    samples = refl;
    window = sym (drop-nil (0 - pos_part cfg.window_size));
  }

  or_fresh-Holds :
      (cfg : Config F) (k : Key) (vs : List F) (t : ℕ) (o : Option (Baseline F)) (value : F)
      (at : ℕ)
      → Knows cfg k vs t o
      → Holds cfg k (or_fresh k value at o) vs
  or_fresh-Holds cfg k vs t none value at h =
      subst (Holds cfg k (fresh_baseline k value value at)) (sym h) (fresh-Holds cfg k value at)
  or_fresh-Holds cfg k vs t (some b) value at h = h.0

  or_fresh-established :
      (cfg : Config F) (k : Key) (vs : List F) (t : ℕ) (o : Option (Baseline F)) (value : F)
      (at : ℕ)
      → ltb_ℤ (pos 0) cfg.min_observations ≡ true
      → Knows cfg k vs t o
      → (or_fresh k value at o).established ≡ leb_ℤ cfg.min_observations (pos (length vs))
  or_fresh-established cfg k vs t none value at positive h =
      let n : length vs ≡ 0 = ap length h in ground (arith, n, positive)
  or_fresh-established cfg k vs t (some b) value at positive h =
      h.1.established ∙ ap (λ n. leb_ℤ cfg.min_observations (pos n)) h.0.samples

  -- The result of an observation that is folded into a baseline over some values.
  pub record Folds (e : Engine F) (k : Key) (v : F) (t : ℕ) (vs : List F)
      (r : Engine F × Baseline F × Bool) : Type 0 where
    pub cfg : r.0.cfg ≡ e.cfg
    pub next : Baseline F
    pub put_in : r.0.baselines ≡ put k next e.baselines
    pub held : Holds e.cfg k next (vs ++ v ∷ [])
    pub current : IsCurrent e.cfg next t
    pub prior : r.1 ≡ without_window (or_fresh k v t (get k e.baselines))
    pub prior_samples : r.1.samples ≡ length vs
    pub prior_window : r.1.window ≡ []
    pub prior_established : r.1.established ≡ leb_ℤ e.cfg.min_observations (pos (length vs))
    pub becomes : r.2 ≡ (length vs + 1 == pos_part e.cfg.min_observations)

  pub observe_key-Folds :
      (e : Engine F) (k : Key) (value : F) (at : ℕ) (vs : List F) (t : ℕ)
      (r : Engine F × Baseline F × Bool)
      → ltb_ℤ (pos 0) e.cfg.window_size ≡ true
      → ltb_ℤ (pos 0) e.cfg.min_observations ≡ true
      → Knows e.cfg k vs t (get k e.baselines)
      → observe_key e k value at ≡ some r
      → Folds e k value at vs r
  unfolding observe_key
  observe_key-Folds e k value at vs t r wide positive h seen =
      let b = or_fresh k value at (get k e.baselines) in
      let holds = or_fresh-Holds e.cfg k vs t (get k e.baselines) value at h in
      let was = or_fresh-established e.cfg k vs t (get k e.baselines) value at positive h in
      let (next, added, last) = bind-some (add e.cfg b value at) _ r seen in
      let (held, current) = add-Holds e.cfg k b next vs value at wide holds added in
      let now_is : next.established ≡ leb_ℤ e.cfg.min_observations (pos (length vs + 1)) =
        current.established
        ∙ ap (λ n. leb_ℤ e.cfg.min_observations (pos n))
            (omega (arith, held.samples, length-append vs (value ∷ []))) in
      let becomes : (not b.established && next.established)
          ≡ (length vs + 1 == pos_part e.cfg.min_observations) =
        rw (was, now_is) (ground (arith, positive)) in
      let is : folded_in e k b next ≡ r = cc last in
      subst (Folds e k value at vs) is (record {
        cfg = refl;
        next = next;
        put_in = refl;
        held = held;
        current = current;
        prior = refl;
        prior_samples = holds.samples;
        prior_window = refl;
        prior_established = was;
        becomes = becomes;
      })
