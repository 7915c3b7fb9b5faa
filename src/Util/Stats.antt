-- ===== src/Util/Stats.antt =====
-- internal/util/stats.go: descriptive statistics over float64. An index out of the range of a slice
-- panics: the result is then `none`. `sort.Float64s` is an insertion sort.
pub mod Ranks
use i_pulse.Base.{
  ℕ, ◌+◌, ◌-◌, Bool, true, false, not, ◌||◌, ◌&&◌, List, [], ◌∷◌, map, Option, none, some, ◌==◌,
  if◌then◌else◌, length, Floats, ◌>>=◌, get_elem?,
}

pub record Stats (F : Type 0) : Type 0 where
  pub count : ℕ
  pub mean : F
  pub median : F
  pub min : F
  pub max : F
  pub std_dev : F
  pub p10 : F
  pub p25 : F
  pub p75 : F
  pub p90 : F
  pub p95 : F
  pub p99 : F
  pub mad : F
  pub sum : F

module _ {F : Type 0} ⦃fl : Floats F⦄ where
  abbrev pub nought : F
  nought = fl.decimal 0 0

  -- `sort.Float64s`, which puts a NaN first.
  abbrev goes_before : F → F → Bool
  goes_before x y = fl.lt x y || (fl.is_nan x && not (fl.is_nan y))

  unfoldable pub insert : F → List F → List F
  insert x [] = x ∷ []
  insert x (y ∷ ys) = if goes_before y x then y ∷ insert x ys else x ∷ y ∷ ys

  unfoldable pub sort : List F → List F
  sort [] = []
  sort (x ∷ xs) = insert x (sort xs)

  abbrev pub rank_of : F → ℕ → F
  rank_of p last = fl.mul (fl.div p (fl.decimal 100 0)) (fl.of_count last)

  between : List F → F → Option F
  between sorted rank =
      let lo = fl.floor_int rank in
      let hi = fl.ceil_int rank in
      if lo == hi
      then get_elem? sorted lo
      else let frac = fl.sub rank (fl.of_count lo) in
        do
          low ← get_elem? sorted lo
          high ← get_elem? sorted hi
          some (fl.add (fl.mul low (fl.sub (fl.decimal 1 0) frac)) (fl.mul high frac))

  -- `percentileSorted`
  unfoldable pub percentile_sorted : List F → F → Option F
  unfolding between
  percentile_sorted sorted p =
      if length sorted == 0
      then some nought
      else if length sorted == 1
      then get_elem? sorted 0
      else if fl.le p nought
      then get_elem? sorted 0
      else if fl.le (fl.decimal 100 0) p
      then get_elem? sorted (length sorted - 1)
      else between sorted (rank_of p (length sorted - 1))

  unfoldable pub mad_sorted : List F → F → Option F
  mad_sorted sorted median =
      percentile_sorted (sort (map (λ x. fl.abs (fl.sub x median)) sorted)) (fl.decimal 50 0)

  sum_from : F → List F → F
  sum_from acc [] = acc
  sum_from acc (x ∷ xs) = sum_from (fl.add acc x) xs

  squares_from : F → F → List F → F
  squares_from mean acc [] = acc
  squares_from mean acc (x ∷ xs) =
      let d = fl.sub x mean in squares_from mean (fl.add acc (fl.mul d d)) xs

  unfoldable pub percentile : List F → F → Option F
  percentile values p =
      if length values == 0 then some nought else percentile_sorted (sort values) p

  unfoldable pub mean : List F → F
  unfolding sum_from
  mean values =
      if length values == 0
      then nought
      else fl.div (sum_from nought values) (fl.of_count (length values))

  unfoldable pub mad : List F → Option F
  mad values = if length values == 0 then some nought else do
    median ← percentile_sorted (sort values) (fl.decimal 50 0)
    mad_sorted (sort values) median

  -- `Stats{}`
  abbrev empty_stats : Stats F
  empty_stats = record {
    count = 0;
    mean = nought;
    median = nought;
    min = nought;
    max = nought;
    std_dev = nought;
    p10 = nought;
    p25 = nought;
    p75 = nought;
    p90 = nought;
    p95 = nought;
    p99 = nought;
    mad = nought;
    sum = nought;
  }

  abbrev deviation : List F → F → F
  deviation v mean =
      if length v == 0 || length v == 1
      then nought
      else fl.sqrt (fl.div (squares_from mean nought v) (fl.of_count (length v - 1)))

  unfoldable pub describe_sorted : List F → Option (Stats F)
  unfolding sum_from squares_from
  describe_sorted v =
      let sum = sum_from nought v in
      let mean = fl.div sum (fl.of_count (length v)) in
      do
        min ← get_elem? v 0
        max ← get_elem? v (length v - 1)
        median ← percentile_sorted v (fl.decimal 50 0)
        p10 ← percentile_sorted v (fl.decimal 10 0)
        p25 ← percentile_sorted v (fl.decimal 25 0)
        p75 ← percentile_sorted v (fl.decimal 75 0)
        p90 ← percentile_sorted v (fl.decimal 90 0)
        p95 ← percentile_sorted v (fl.decimal 95 0)
        p99 ← percentile_sorted v (fl.decimal 99 0)
        mad ← mad_sorted v median
        some (record {
          count = length v;
          mean = mean;
          median = median;
          min = min;
          max = max;
          std_dev = deviation v mean;
          p10 = p10;
          p25 = p25;
          p75 = p75;
          p90 = p90;
          p95 = p95;
          p99 = p99;
          mad = mad;
          sum = sum;
        })

  -- `Describe`
  unfoldable pub describe : List F → Option (Stats F)
  describe values = if length values == 0 then some empty_stats else describe_sorted (sort values)

  -- `RobustZ`
  unfoldable pub robust_z : F → F → F → F
  robust_z value median mad =
      let scaled = fl.mul mad (fl.decimal 14_826 4) in
      if fl.lt (fl.decimal 1 9) scaled
      then fl.div (fl.sub value median) scaled
      else if fl.lt (fl.decimal 1 9) (fl.abs median)
      then fl.div (fl.sub value median) (fl.abs median)
      else if fl.lt (fl.abs value) (fl.decimal 1 9)
      then nought
      else fl.infinity

  -- `PercentDeviation`
  unfoldable pub percent_deviation : F → F → F
  percent_deviation value baseline =
      if fl.lt (fl.abs baseline) (fl.decimal 1 12)
      then nought
      else fl.mul (fl.div (fl.sub value baseline) baseline) (fl.decimal 100 0)

  -- `EWMA`
  unfoldable pub ewma : F → F → F → F
  ewma prev sample alpha =
      let a =
        if fl.le alpha nought || fl.lt (fl.decimal 1 0) alpha then fl.decimal 1 1 else alpha in
      fl.add (fl.mul a sample) (fl.mul (fl.sub (fl.decimal 1 0) a) prev)
