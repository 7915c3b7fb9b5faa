-- ===== src/Baseline/Examples.antt =====
-- The baseline engine at concrete inputs: latencies of one target, with a minimum of two observations.
use mathlib.Core.Path.{subst}
use i_pulse.Base.{
  ltb_ℤ, ℕ, pos, ◌≡◌, refl, sym, Bool, true, false, List, [], ◌∷◌, none, some, get, length, leb_ℤ,
  pos_part, ◌==◌, ◌+◌, Bool-cases, ◌∙◌, inl, inr, string_eq,
}
use i_pulse.Baseline.Engine.{
  Key, Baseline, Config, Engine, new_engine, normalised, key_of, key_eq, usable, fresh_baseline,
  get_baseline,
}
use i_pulse.Baseline.Engine.Folding.{Knows, normalised-window}
use i_pulse.Baseline.Engine.History.{
  Sample, observe_all, values, latest, observe_all-Knows, observe-IsPrior,
}
use i_pulse.Baseline.Engine.Storage.{take_dirty, load}
use i_pulse.Baseline.Engine.Restored.{ReadsBack, IsStorable, restarted, get-load-take_dirty}
use i_pulse.Baseline.Engine.Totality.{observe-Found, observe_all-IsTotal}
use i_pulse.Fixtures.{whole, whole-RanksFit, hourly, one_text}

abbrev two_needed : Config ℕ
two_needed = record {
  min_observations = pos 2;
  time_buckets = false;
  bucket_hours = pos 1;
  ewma_alpha = 1;
  window_size = pos 16;
  max_age = pos 100;
}

abbrev latency : ℕ → ℕ → Sample ℕ
latency value at = record { metric = "latency"; dimension = "dns"; value = value; at = at }

abbrev two_samples : List (Sample ℕ)
two_samples = latency 6 11 ∷ latency 4 10 ∷ []

abbrev latency_key : Key
latency_key = record { metric = "latency"; dimension = "dns"; bucket = "all" }

observe_all-IsTotal_example :
    (after : Engine ℕ) × (observe_all hourly (new_engine two_needed) two_samples ≡ some after)
    × (after.cfg ≡ normalised two_needed)
observe_all-IsTotal_example = observe_all-IsTotal whole-RanksFit hourly two_needed two_samples

-- The engine after the two samples.
learned : Engine ℕ
learned = (observe_all-IsTotal whole-RanksFit hourly two_needed two_samples).0

learned_so : observe_all hourly (new_engine two_needed) two_samples ≡ some learned
unfolding learned
learned_so = (observe_all-IsTotal whole-RanksFit hourly two_needed two_samples).1

observe_all-Knows_example :
    Knows
      (normalised two_needed)
      latency_key
      (values hourly (normalised two_needed) latency_key two_samples)
      (latest hourly (normalised two_needed) latency_key two_samples)
      (get latency_key learned.baselines)
observe_all-Knows_example =
    observe_all-Knows hourly two_needed two_samples learned latency_key learned_so

learned_wide : ltb_ℤ (pos 0) learned.cfg.window_size ≡ true
unfolding learned
learned_wide =
    subst (λ c. ltb_ℤ (pos 0) c.window_size ≡ true)
      (sym (observe_all-IsTotal whole-RanksFit hourly two_needed two_samples).2)
      (normalised-window two_needed)

answer : Engine ℕ × Baseline ℕ × Bool
answer = (observe-Found whole-RanksFit hourly learned (latency 5 12) learned_wide).0

observe-IsPrior_example :
    let c = normalised two_needed in
    let n = length (values hourly c (key_of hourly c "latency" "dns" 12) two_samples) in
    (get_baseline hourly learned "latency" "dns" 12 ≡ none
      → answer.1 ≡ fresh_baseline (key_of hourly c "latency" "dns" 12) 5 5 12)
    × ((b : Baseline ℕ) → get_baseline hourly learned "latency" "dns" 12 ≡ some b → answer.1 ≡ b)
    × (answer.1.samples ≡ n)
    × (usable answer.1 ≡ leb_ℤ c.min_observations (pos n))
    × (answer.2 ≡ (n + 1 == pos_part c.min_observations))
unfolding answer
observe-IsPrior_example =
    observe-IsPrior hourly two_needed two_samples learned (latency 5 12) answer learned_so refl
      (observe-Found whole-RanksFit hourly learned (latency 5 12) learned_wide).1

-- A baseline of the two samples.
abbrev stored : Baseline ℕ
stored = record (fresh_baseline latency_key 4 6 10) { samples = 2; mean = 5; window = 4 ∷ 6 ∷ [] }

abbrev running : Engine ℕ
running = record {
  cfg = two_needed;
  baselines = (latency_key, stored) ∷ [];
  dirty = (latency_key, true) ∷ [];
  newly_established = [];
}

stored_back : ReadsBack one_text (4 ∷ 6 ∷ [])
stored_back = record { text = "[4,6]"; written = refl; not_empty = λ e. absurd (cc e); read = refl }

running-IsStorable : IsStorable one_text ((latency_key, stored) ∷ [])
unfolding IsStorable get
running-IsStorable k b found = elim (Bool-cases (key_eq.beq latency_key k)) [
  | inl same ↦
      let here : get k ((latency_key, stored) ∷ []) ≡ some stored = rw same refl in
      let is : stored ≡ b = cc (sym here ∙ found) in
      subst (λ b. (b.key ≡ k) × ReadsBack one_text b.window) is
        ((key_eq.beq_iff latency_key k).0 same, stored_back)
  | inr other ↦
      let missing : get k ((latency_key, stored) ∷ []) ≡ none = rw other refl in
      absurd (cc (sym missing ∙ found))
]

get-load-take_dirty_example :
    (after : Engine ℕ) × (load one_text (new_engine two_needed) (take_dirty one_text running).1
      ≡ some after)
    × (get latency_key after.baselines ≡ some (restarted one_text (normalised two_needed) stored))
unfolding get
get-load-take_dirty_example =
    get-load-take_dirty one_text running two_needed latency_key stored running-IsStorable refl
