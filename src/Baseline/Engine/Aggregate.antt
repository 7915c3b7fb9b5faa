-- ===== src/Baseline/Engine/Aggregate.antt =====
-- internal/baseline/engine.go: the baseline over all the buckets of a metric, and the one that a detector
-- gets. The buckets are pooled in the order of the list, where Go's map has any order.
use i_pulse.Base.{
  ℕ, pos, leb_ℤ, ◌+◌, ltb, Bool, not, ◌||◌, ◌&&◌, List, [], ◌∷◌, ◌++◌, String, Option, none, some,
  ◌==◌, if◌then◌else◌, Floats, ◌>>=◌, string_eq,
}
use i_pulse.Util.Stats.{nought}
use i_pulse.Baseline.Engine.{
  Key, Baseline, Engine, Calendar, usable, recompute, fresh_baseline, get_baseline,
}

abbrev pub concerns : String → String → Key → Bool
concerns metric dimension key =
    string_eq.beq key.metric metric && string_eq.beq key.dimension dimension

abbrev pub aggregate_key : String → String → Key
aggregate_key metric dimension = record {
  metric = metric;
  dimension = dimension;
  bucket = "aggregate";
}

module _ {F : Type 0} ⦃fl : Floats F⦄ where
  abbrev widest : Baseline F → ℕ → ℕ
  widest b seen =
      if not (b.first_seen == 0) && (seen == 0 || ltb b.first_seen seen) then b.first_seen else seen

  -- The loop of `GetAggregate` on one baseline of the metric and dimension.
  unfoldable pub pool : Baseline F → Baseline F → Baseline F
  pool agg b =
      let first = agg.samples == 0 in
      let total = agg.samples + b.samples in
      let min = if first then b.min else agg.min in
      let max = if first then b.max else agg.max in
      let seen = if first then b.first_seen else agg.first_seen in
      let weighted =
        fl.add (fl.mul agg.mean (fl.of_count agg.samples))
          (fl.mul b.mean (fl.of_count b.samples)) in
      record agg {
        samples = total;
        mean = if ltb 0 total then fl.div weighted (fl.of_count total) else agg.mean;
        m2 = fl.add agg.m2 b.m2;
        min = if fl.lt b.min min then b.min else min;
        max = if fl.lt max b.max then b.max else max;
        updated_at = if ltb agg.updated_at b.updated_at then b.updated_at else agg.updated_at;
        first_seen = widest b seen;
        window = agg.window ++ b.window;
        ewma = if fl.eq agg.ewma nought then b.ewma else agg.ewma;
      }

  unfoldable pub pool_all : String → String → Baseline F → List (Key × Baseline F) → Baseline F
  pool_all metric dimension agg [] = agg
  pool_all metric dimension agg ((key, b) ∷ rest) =
      pool_all metric dimension (if concerns metric dimension key then pool agg b else agg) rest

  -- `GetAggregate`; the window of the pooled baseline is the local `all`.
  unfoldable pub get_aggregate : Engine F → String → String → Option (Option (Baseline F))
  get_aggregate e metric dimension =
      let empty = fresh_baseline (aggregate_key metric dimension) nought nought 0 in
      let agg = pool_all metric dimension empty e.baselines in
      if agg.samples == 0 then some none else do
        next ← recompute agg
        some (
            some (record next {
              established = leb_ℤ e.cfg.min_observations (pos next.samples);
              window = [];
            }))

  abbrev pub if_usable : Option (Baseline F) → Option (Baseline F)
  if_usable none = none
  if_usable (some b) = if usable b then some b else none

  -- `Best`
  unfoldable pub best : Calendar → Engine F → String → String → ℕ → Option (Option (Baseline F))
  best cal e metric dimension at = elim (if_usable (get_baseline cal e metric dimension at)) [
    | some b ↦ some (some b)
    | none ↦ do agg ← get_aggregate e metric dimension; some (if_usable agg)
  ]
