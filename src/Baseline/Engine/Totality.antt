-- ===== src/Baseline/Engine/Totality.antt =====
-- internal/baseline/engine.go: no observation makes the statistics panic.
use mathlib.Core.Path.{subst}
use i_pulse.Base.{
  pos, pos_part, ltb_ℤ, sym, ◌∙◌, Bool, true, ◌++◌, Option, last_of, ℕ, ◌≡◌, refl, false, ◌||◌,
  List, [], ◌∷◌, some, inl, inr, Bool-cases, ◌==◌, length, Floats, get,
}
use i_pulse.Util.Stats.Ranks.{RanksFit, Found, describe-IsTotal}
use i_pulse.Baseline.Engine.{
  with_statistics, blank_baseline, Key, Baseline, Engine, Calendar, recompute, accumulate, add,
  or_fresh, folded_in, dated, Config, new_engine, normalised, observe_key, observe, key_of, key_eq,
}
use i_pulse.Baseline.Engine.Held.{cut-newest}
use i_pulse.Baseline.Engine.Folding.{normalised-window}
use i_pulse.Baseline.Engine.History.{Sample, observe_all}

module _ {F : Type 0} ⦃fl : Floats F⦄ (fit : RanksFit F) where
  pub recompute-Found : (b : Baseline F) → Found (recompute b)
  unfolding recompute
  recompute-Found b = elim (Bool-cases (length b.window == 0)) [
    | inl nothing ↦ (b, rw nothing refl)
    | inr filled ↦
        let (s, described) = describe-IsTotal fit b.window in
        (with_statistics b s, rw (filled, described) refl)
  ]

  -- An observation has a result, and leaves the configuration alone.
  abbrev pub GoesOn : Engine F → Option (Engine F × Baseline F × Bool) → Type 0
  GoesOn e o = (r : Engine F × Baseline F × Bool) × (o ≡ some r) × (r.0.cfg ≡ e.cfg)

  observe_key-Found :
      (e : Engine F) (k : Key) (value : F) (at : ℕ)
      → ltb_ℤ (pos 0) e.cfg.window_size ≡ true
      → GoesOn e (observe_key e k value at)
  unfolding observe_key add
  observe_key-Found e k value at wide =
      let b = or_fresh k value at (get k e.baselines) in
      let size = e.cfg.window_size in
      let all = b.window ++ value ∷ [] in
      let window = last_of (pos_part size) all in
      let (next, computed) = recompute-Found (accumulate e.cfg b value window) in
      (folded_in e k b (dated e.cfg at next), rw (cut-newest size all wide, computed) refl, refl)

  pub observe-Found :
      (cal : Calendar) (e : Engine F) (x : Sample F)
      → ltb_ℤ (pos 0) e.cfg.window_size ≡ true
      → GoesOn e (observe cal e x.metric x.dimension x.value x.at)
  unfolding observe
  observe-Found cal e x wide = elim (Bool-cases (fl.is_nan x.value || fl.is_inf x.value)) [
    | inl odd ↦ ((e, blank_baseline, false), rw odd refl, refl)
    | inr finite ↦
        let (r, seen, same) =
          observe_key-Found e (key_of cal e.cfg x.metric x.dimension x.at) x.value x.at wide in
        (r, rw finite seen, same)
  ]

  -- No sequence of observations of a new engine reads a slice out of range, in the statistics or where
  -- the window is cut, infinities and NaNs among the values included, provided that the ranks of float64
  -- do not exceed the last index: there is an engine after it, of the same configuration.
  pub observe_all-IsTotal :
      (cal : Calendar) (cfg : Config F) (xs : List (Sample F))
      → (after : Engine F) × (observe_all cal (new_engine cfg) xs ≡ some after)
        × (after.cfg ≡ normalised cfg)
  unfolding observe_all new_engine
  observe_all-IsTotal cal cfg [] = (new_engine cfg, refl, refl)
  observe_all-IsTotal cal cfg (x ∷ xs) =
      let (before, got, same) = observe_all-IsTotal cal cfg xs in
      let wide =
        subst (λ c. ltb_ℤ (pos 0) c.window_size ≡ true) (sym same) (normalised-window cfg) in
      let (r, seen, kept) = observe-Found cal before x wide in
      (r.0, rw (got, seen) refl, kept ∙ same)
