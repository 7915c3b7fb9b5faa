-- ===== src/Baseline/Engine/Storage.antt =====
-- internal/baseline/engine.go: what is written to the database and restored from it, and what is dropped
-- for its age. encoding/json is a parameter.
use i_pulse.Base.{
  ◌>>=◌, ℕ, ℤ, pos, pos_part, sub_ℕ, ltb_ℤ, leb_ℤ, Bool, true, false, not, List, [], ◌∷◌, String,
  Option, none, some, ◌==◌, if◌then◌else◌, length, keep_if, Floats, string_eq, get, put, retain,
}
use Prim.Native.String.{compare}
use Prim.Native.Nat.{Ordering}
use i_pulse.Baseline.Engine.{Key, Baseline, Config, Engine, cut, key_eq}

-- `Marshal` of a window, which fails on an infinity or a NaN, and `Unmarshal` into one.
pub record Json (F : Type 0) : Type 0 where
  pub encode : List F → Option String
  pub decode : String → Option (List F)

module _ (F : Type 0) where
  pub record Row : Type 0 where
    pub metric : String
    pub dimension : String
    pub bucket : String
    pub samples : ℕ
    pub mean : F
    pub m2 : F
    pub min : F
    pub max : F
    pub ewma : F
    pub median : F
    pub mad : F
    pub p10 : F
    pub p25 : F
    pub p75 : F
    pub p90 : F
    pub p95 : F
    pub p99 : F
    pub window : String
    pub established : Bool
    pub first_seen : ℕ
    pub updated_at : ℕ

abbrev pub or_blank : Option String → String
or_blank none = ""
or_blank (some s) = s

abbrev pub string_less : String → String → Bool
string_less a b = elim (compare a b) [ Ordering.lt ↦ true | _ ↦ false ]

module _ {F : Type 0} ⦃fl : Floats F⦄ (json : Json F) where
  unfoldable pub row_of : Baseline F → Row F
  row_of b = record {
    metric = b.key.metric;
    dimension = b.key.dimension;
    bucket = b.key.bucket;
    samples = b.samples;
    mean = b.mean;
    m2 = b.m2;
    min = b.min;
    max = b.max;
    ewma = b.ewma;
    median = b.median;
    mad = b.mad;
    p10 = b.p10;
    p25 = b.p25;
    p75 = b.p75;
    p90 = b.p90;
    p95 = b.p95;
    p99 = b.p99;
    window = if length b.window == 0 then "" else or_blank (json.encode b.window);
    established = b.established;
    first_seen = b.first_seen;
    updated_at = b.updated_at;
  }

  abbrev pub add_row : Option (Baseline F) → List (Row F) → List (Row F)
  add_row none rows = rows
  add_row (some b) rows = row_of b ∷ rows

  -- The loop of `TakeDirty`, in the order of the list.
  unfoldable pub rows_of : List (Key × Baseline F) → List (Key × Bool) → List (Row F)
  rows_of held [] = []
  rows_of held ((key, d) ∷ rest) = add_row (get key held) (rows_of held rest)

  abbrev pub row_less : Row F → Row F → Bool
  row_less a b =
      if not (string_eq.beq a.metric b.metric)
      then string_less a.metric b.metric
      else string_less a.bucket b.bucket

  unfoldable pub insert_row : Row F → List (Row F) → List (Row F)
  insert_row r [] = r ∷ []
  insert_row r (q ∷ rows) = if row_less q r then q ∷ insert_row r rows else r ∷ q ∷ rows

  -- `sort.Slice`, as an insertion sort.
  unfoldable pub sort_rows : List (Row F) → List (Row F)
  sort_rows [] = []
  sort_rows (r ∷ rows) = insert_row r (sort_rows rows)

  -- `TakeDirty`
  unfoldable pub take_dirty : Engine F → Engine F × List (Row F)
  take_dirty e = (record e { dirty = [] }, sort_rows (rows_of e.baselines e.dirty))

  abbrev pub window_from : ℤ → Option (List F) → Option (List F)
  window_from size none = some []
  window_from size (some window) = cut size window

  abbrev pub remade : Config F → Row F → List F → Baseline F
  remade cfg r window = record {
    key = record { metric = r.metric; dimension = r.dimension; bucket = r.bucket };
    samples = r.samples;
    mean = r.mean;
    m2 = r.m2;
    min = r.min;
    max = r.max;
    ewma = r.ewma;
    median = r.median;
    mad = r.mad;
    p10 = r.p10;
    p25 = r.p25;
    p75 = r.p75;
    p90 = r.p90;
    p95 = r.p95;
    p99 = r.p99;
    established = leb_ℤ cfg.min_observations (pos r.samples);
    first_seen = r.first_seen;
    updated_at = r.updated_at;
    window = window;
  }

  -- The baseline that `Load` makes of a row.
  unfoldable pub restored : Config F → Row F → Option (Baseline F)
  restored cfg r = do
    window ←
        if string_eq.beq r.window ""
        then some []
        else window_from cfg.window_size (json.decode r.window)
    some (remade cfg r window)

  -- `Load`
  unfoldable pub load : Engine F → List (Row F) → Option (Engine F)
  load e [] = some e
  load e (r ∷ rows) = do
    b ← restored e.cfg r
    load (record e { baselines = put b.key b e.baselines }) rows

module _ {F : Type 0} ⦃fl : Floats F⦄ where
  -- Last updated before the cutoff.
  unfoldable pub is_old : ℕ → Config F → Baseline F → Bool
  is_old now cfg b = ltb_ℤ (pos b.updated_at) (sub_ℕ now (pos_part cfg.max_age))

  abbrev pub stays_dirty : ℕ → Config F → Option (Baseline F) → Bool
  stays_dirty now cfg none = true
  stays_dirty now cfg (some b) = not (is_old now cfg b)

  -- `Prune`, with the number of baselines that it removes; the maximum age is positive.
  unfoldable pub prune : Engine F → ℕ → Engine F × ℕ
  prune e now = (
    record e {
      baselines = retain (λ key b. not (is_old now e.cfg b)) e.baselines;
      dirty = retain (λ key d. stays_dirty now e.cfg (get key e.baselines)) e.dirty;
    },
    length (keep_if (λ x. is_old now e.cfg x.1) e.baselines),
  )
