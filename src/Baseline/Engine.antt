-- ===== src/Baseline/Engine.antt =====
-- internal/baseline/engine.go. A method on `*Engine` returns the new engine; the mutex makes each call one
-- step. Instants are nanoseconds since Go's zero time; the number of samples is not wrapped. A panic of the
-- statistics is `none`. The day of the week and the hour of an instant are those of package time.
pub mod Aggregate
pub mod Storage
pub mod Held
pub mod Folding
pub mod History
pub mod Restored
pub mod Totality
use i_pulse.Base.{
  ℕ, ℤ, pos, pos_part, sub_ℕ, ltb_ℤ, leb_ℤ, ◌+◌, ◌-◌, ◌*◌, ◌/◌, ◌%◌, ltb, leb, ◌≡◌, ◌↔◌, refl, Bool,
  true, false, not, ◌||◌, ◌&&◌, List, [], ◌∷◌, ◌++◌, String, Option, none, some, ◌==◌,
  if◌then◌else◌, length, last_of, Floats, ◌>>=◌, Eq, string_eq, get, put, delete, retain, arith,
  drop,
}
use Prim.Native.String.{◌++◌ as concat, compare}
use Prim.Native.Nat.{Ordering}
use i_pulse.Util.Stats.{Stats, describe, ewma, nought}

pub record Key : Type 0 where
  pub metric : String
  pub dimension : String
  pub bucket : String

abbrev pub same_key : Key → Key → Bool
same_key a b =
    string_eq.beq a.metric b.metric
    && (string_eq.beq a.dimension b.dimension && string_eq.beq a.bucket b.bucket)

pub same_key_iff : (a b : Key) → (same_key a b ≡ true) ↔ (a ≡ b)
same_key_iff a b = ground (
  arith,
  string_eq.beq_iff a.metric b.metric,
  string_eq.beq_iff a.dimension b.dimension,
  string_eq.beq_iff a.bucket b.bucket,
)

instance abbrev pub key_eq : Eq Key
key_eq = record { beq = same_key; beq_iff = same_key_iff }

module _ (F : Type 0) where
  pub record Baseline : Type 0 where
    pub key : Key
    pub samples : ℕ
    pub mean : F
    pub m2 : F
    pub min : F
    pub max : F
    pub ewma : F
    pub median : F
    pub mad : F
    pub p10 : F
    pub p25 : F
    pub p75 : F
    pub p90 : F
    pub p95 : F
    pub p99 : F
    pub established : Bool
    pub first_seen : ℕ
    pub updated_at : ℕ
    pub window : List F

  pub record Config : Type 0 where
    pub min_observations : ℤ
    pub time_buckets : Bool
    pub bucket_hours : ℤ
    pub ewma_alpha : F
    pub window_size : ℤ
    pub max_age : ℤ

  pub record Engine : Type 0 where
    pub cfg : Config
    pub baselines : List (Key × Baseline)
    pub dirty : List (Key × Bool)
    pub newly_established : List Baseline

-- `t.Weekday()`, from Sunday at 0, and `t.Hour()`.
pub record Calendar : Type 0 where
  pub weekday : ℕ → ℕ
  pub hour : ℕ → ℕ

digit : ℕ → String
digit n =
    if n == 0
    then "0"
    else if n == 1
    then "1"
    else if n == 2
    then "2"
    else if n == 3
    then "3"
    else if n == 4
    then "4"
    else if n == 5
    then "5"
    else if n == 6
    then "6"
    else if n == 7
    then "7"
    else if n == 8
    then "8"
    else "9"

-- `%02d` of an hour.
two_digits : ℕ → String
unfolding digit
two_digits n = concat (digit (n / 10)) (digit (n % 10))

module _ {F : Type 0} ⦃fl : Floats F⦄ where
  -- `StdDev`
  unfoldable pub std_dev : Baseline F → F
  std_dev b =
      if ltb b.samples 2
      then nought
      else fl.sqrt (fl.div b.m2 (fl.of_count (pos_part (sub_ℕ b.samples 1))))

  -- `Usable`
  unfoldable pub usable : Baseline F → Bool
  usable b = b.established && ltb 0 b.samples

  unfoldable pub normalised : Config F → Config F
  normalised cfg = record cfg {
    min_observations = if leb_ℤ cfg.min_observations (pos 0) then pos 30 else cfg.min_observations;
    bucket_hours =
        if leb_ℤ cfg.bucket_hours (pos 0) || not (24 % pos_part cfg.bucket_hours == 0)
        then pos 1
        else cfg.bucket_hours;
    ewma_alpha =
        if fl.le cfg.ewma_alpha nought || fl.lt (fl.decimal 1 0) cfg.ewma_alpha
        then fl.decimal 1 1
        else cfg.ewma_alpha;
    window_size = if ltb_ℤ cfg.window_size (pos 16) then pos 256 else cfg.window_size;
    max_age = if leb_ℤ cfg.max_age (pos 0) then pos 2_592_000_000_000_000 else cfg.max_age;
  }

  -- `New`
  unfoldable pub new_engine : Config F → Engine F
  new_engine cfg = record {
    cfg = normalised cfg;
    baselines = [];
    dirty = [];
    newly_established = [];
  }

  -- `BucketFor`; the width of a bucket is positive.
  unfoldable pub bucket_for : Calendar → Config F → ℕ → String
  unfolding two_digits
  bucket_for cal cfg at =
      if not cfg.time_buckets
      then "all"
      else let day_class = if cal.weekday at == 6 || cal.weekday at == 0 then "we" else "wd" in
        let width = pos_part cfg.bucket_hours in
        concat day_class (concat "-" (two_digits (cal.hour at / width * width)))

  abbrev pub with_statistics : Baseline F → Stats F → Baseline F
  with_statistics b stats = record b {
    median = stats.median;
    mad = stats.mad;
    p10 = stats.p10;
    p25 = stats.p25;
    p75 = stats.p75;
    p90 = stats.p90;
    p95 = stats.p95;
    p99 = stats.p99;
  }

  -- `recompute`
  unfoldable pub recompute : Baseline F → Option (Baseline F)
  recompute b =
      if length b.window == 0
      then some b
      else do stats ← describe b.window; some (with_statistics b stats)

  -- The window of so many newest samples; a slice from beyond its end panics.
  abbrev pub cut : ℤ → List F → Option (List F)
  cut size window =
      if ltb_ℤ size (pos (length window))
      then (if ltb_ℤ size (pos 0) then none else some (drop (length window - pos_part size) window))
      else some window

  -- The accumulators of `add`: Welford's method, the extremes, and the window that it is given.
  unfoldable pub accumulate : Config F → Baseline F → F → List F → Baseline F
  accumulate cfg b value window =
      let n = b.samples + 1 in
      let delta = fl.sub value b.mean in
      let mean = fl.add b.mean (fl.div delta (fl.of_count n)) in
      record b {
        samples = n;
        mean = mean;
        m2 = fl.add b.m2 (fl.mul delta (fl.sub value mean));
        min = if n == 1 || fl.lt value b.min then value else b.min;
        max = if n == 1 || fl.lt b.max value then value else b.max;
        ewma = if n == 1 then value else ewma b.ewma value cfg.ewma_alpha;
        window = window;
      }

  abbrev pub dated : Config F → ℕ → Baseline F → Baseline F
  dated cfg at b = record b {
    updated_at = at;
    first_seen = if b.first_seen == 0 then at else b.first_seen;
    established = leb_ℤ cfg.min_observations (pos b.samples);
  }

  -- `add`
  unfoldable pub add : Config F → Baseline F → F → ℕ → Option (Baseline F)
  add cfg b value at = do
    window ← cut cfg.window_size (b.window ++ value ∷ [])
    next ← recompute (accumulate cfg b value window)
    some (dated cfg at next)

  abbrev pub fresh_baseline : Key → F → F → ℕ → Baseline F
  fresh_baseline key min max at = record {
    key = key;
    samples = 0;
    mean = nought;
    m2 = nought;
    min = min;
    max = max;
    ewma = nought;
    median = nought;
    mad = nought;
    p10 = nought;
    p25 = nought;
    p75 = nought;
    p90 = nought;
    p95 = nought;
    p99 = nought;
    established = false;
    first_seen = at;
    updated_at = 0;
    window = [];
  }

  -- `Baseline{}`
  abbrev pub blank_baseline : Baseline F
  blank_baseline =
      fresh_baseline (record { metric = ""; dimension = ""; bucket = "" }) nought nought 0

  abbrev pub without_window : Baseline F → Baseline F
  without_window b = record b { window = [] }

  abbrev pub or_fresh : Key → F → ℕ → Option (Baseline F) → Baseline F
  or_fresh key value at none = fresh_baseline key value value at
  or_fresh key value at (some b) = b

  abbrev pub key_of : Calendar → Config F → String → String → ℕ → Key
  key_of cal cfg metric dimension at = record {
    metric = metric;
    dimension = dimension;
    bucket = bucket_for cal cfg at;
  }

  abbrev pub folded_in : Engine F → Key → Baseline F → Baseline F → Engine F × Baseline F × Bool
  folded_in e key b next =
      let becomes = not b.established && next.established in
      (
        record e {
          baselines = put key next e.baselines;
          dirty = put key true e.dirty;
          newly_established =
              if becomes
              then e.newly_established ++ without_window next ∷ []
              else e.newly_established;
        },
        without_window b,
        becomes,
      )

  -- The bucket of a sample is updated; with the prior baseline, and whether it became established.
  unfoldable pub observe_key : Engine F → Key → F → ℕ → Option (Engine F × Baseline F × Bool)
  observe_key e key value at =
      let b = or_fresh key value at (get key e.baselines) in
      do next ← add e.cfg b value at; some (folded_in e key b next)

  -- `Observe`
  unfoldable pub observe :
      Calendar → Engine F → String → String → F → ℕ → Option (Engine F × Baseline F × Bool)
  observe cal e metric dimension value at =
      if fl.is_nan value || fl.is_inf value
      then some (e, blank_baseline, false)
      else observe_key e (key_of cal e.cfg metric dimension at) value at

  abbrev pub shown : Option (Baseline F) → Option (Baseline F)
  shown none = none
  shown (some b) = some (without_window b)

  -- `Get`
  unfoldable pub get_baseline : Calendar → Engine F → String → String → ℕ → Option (Baseline F)
  get_baseline cal e metric dimension at =
      shown (get (key_of cal e.cfg metric dimension at) e.baselines)

  -- `TakeNewlyEstablished`
  unfoldable pub take_newly_established : Engine F → Engine F × List (Baseline F)
  take_newly_established e = (record e { newly_established = [] }, e.newly_established)

  abbrev pub count_from : ℕ × ℕ → List (Key × Baseline F) → ℕ × ℕ
  count_from (total, established) [] = (total, established)
  count_from (total, established) ((key, b) ∷ rest) =
      count_from (total + 1, if b.established then established + 1 else established) rest

  -- `Count`
  unfoldable pub count : Engine F → ℕ × ℕ
  count e = count_from (0, 0) e.baselines
