-- ===== src/Anomaly/Rules.antt =====
-- internal/anomaly/rules.go: the two rules that compare a sample with its baseline. They share a gate,
-- which a call changes and returns.
pub mod Reports
use i_pulse.Base.{
  ℕ, ℤ, Bool, true, false, not, ◌&&◌, ◌||◌, List, [], ◌∷◌, String, Option, none, some,
  if◌then◌else◌, Floats,
}
use Prim.Native.String.{◌++◌ as concat}
use i_pulse.Util.Stats.{nought, percent_deviation, robust_z}
use i_pulse.Baseline.Engine.{Baseline, usable}
use i_pulse.Anomaly.Gate.{Gate, Decision, observe}

pub data Direction : Type 0 where
  above below : Direction

abbrev pub gate_key : String → String → String
gate_key metric dimension = concat metric (concat "|" dimension)

module _ (F : Type 0) where
  pub record Finding : Type 0 where
    pub metric : String
    pub dimension : String
    pub value : F
    pub baseline : F
    pub deviation_pct : F
    pub z_score : F
    pub bucket : String
    pub observations : ℕ
    pub consecutive : ℕ
    pub duration : ℤ
    pub recovered : Bool

  pub record DeviationRule : Type 0 where
    pub metric : String
    pub direction : Direction
    pub threshold_percent : F
    pub min_absolute : F
    pub use_median : Bool

  pub record ZScoreRule : Type 0 where
    pub metric : String
    pub threshold : F
    pub min_absolute : F
    pub direction : Direction

  -- What a rule concludes before the gate: nothing, or whether the sample is a breach, with the finding
  -- that a decision of the gate makes of it.
  abbrev pub Verdict : Type 0
  Verdict = Option (Bool × (Decision → Finding))

module _ {F : Type 0} where
  abbrev pub told_if : Decision → (Decision → Finding F) → Option (Finding F)
  told_if d finding = if not d.fire && not d.recovered then none else some (finding d)

  -- The last part of both `Evaluate`s.
  unfoldable pub judge : Gate → String → Verdict F → ℕ → Gate × Option (Finding F)
  judge g key none now = (g, none)
  judge g key (some (breached, finding)) now =
      let (g', d) = observe g key breached now in (g', told_if d finding)

module _ {F : Type 0} ⦃fl : Floats F⦄ where
  unfoldable pub reference : DeviationRule F → Baseline F → F
  reference r b =
      if r.use_median && fl.lt nought b.median
      then b.median
      else if not (fl.eq b.mean nought)
      then b.mean
      else b.median

  abbrev deviates : Direction → F → F → F → F → F → Bool
  deviates above deviation threshold value ref floor =
      fl.le threshold deviation && fl.le floor value
  deviates below deviation threshold value ref floor =
      fl.le threshold (fl.neg deviation) && fl.le floor ref

  unfoldable pub deviation_verdict : DeviationRule F → Baseline F → F → String → Verdict F
  unfolding reference
  deviation_verdict r b value dimension =
      let ref = reference r b in
      let deviation = percent_deviation value ref in
      if not (usable b) || fl.le r.threshold_percent nought
      then none
      else if fl.le ref nought
      then none
      else some (
        deviates r.direction deviation r.threshold_percent value ref r.min_absolute,
        λ d. record {
          metric = r.metric;
          dimension = dimension;
          value = value;
          baseline = ref;
          deviation_pct = deviation;
          z_score = nought;
          bucket = b.key.bucket;
          observations = b.samples;
          consecutive = d.consecutive;
          duration = d.duration;
          recovered = d.recovered;
        },
      )

  -- `DeviationRule.Evaluate`
  unfoldable pub evaluate_deviation :
      DeviationRule F → Gate → Baseline F → F → String → ℕ → Gate × Option (Finding F)
  evaluate_deviation r g b value dimension now =
      judge g (gate_key r.metric dimension) (deviation_verdict r b value dimension) now

  unfoldable pub z_score_verdict : ZScoreRule F → Baseline F → F → String → Verdict F
  z_score_verdict r b value dimension =
      let median = if fl.eq b.median nought then b.mean else b.median in
      let z = robust_z value median b.mad in
      if not (usable b) || fl.le r.threshold nought
      then none
      else some (
        deviates r.direction z r.threshold value median r.min_absolute,
        λ d. record {
          metric = r.metric;
          dimension = dimension;
          value = value;
          baseline = median;
          deviation_pct = percent_deviation value median;
          z_score = z;
          bucket = b.key.bucket;
          observations = b.samples;
          consecutive = d.consecutive;
          duration = d.duration;
          recovered = d.recovered;
        },
      )

  -- `ZScoreRule.Evaluate`
  unfoldable pub evaluate_z_score :
      ZScoreRule F → Gate → Baseline F → F → String → ℕ → Gate × Option (Finding F)
  evaluate_z_score r g b value dimension now =
      judge g (gate_key r.metric dimension) (z_score_verdict r b value dimension) now
