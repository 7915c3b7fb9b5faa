-- ===== src/Traffic/Sampler.antt =====
-- internal/traffic/sampler.go: counter readings turned into rates. Names are lists of bytes; a counter is
-- below 2 ^ 64, and the differences that may wrap are written out.
pub mod Deltas
pub mod Wanted
pub mod Readings
use i_pulse.Base.{
  ℕ, ℤ, pos, negsuc, pos_part, sub_ℕ, ltb_ℤ, leb_ℤ, ◌+◌, ◌-◌, ◌/◌, ◌%◌, ◌^◌, Bool, true, false, not,
  ◌&&◌, ◌||◌, List, [], ◌∷◌, ◌++◌, Option, none, some, ltb, leb, ◌==◌, if◌then◌else◌, length,
  Floats, Eq, get, put, retain,
}
use i_pulse.Util.Stats.{nought}
use i_pulse.Util.Glob.{same, matches_any_glob}
use i_pulse.Util.Glob.Occurrences.{same_iff}
use i_pulse.Traffic.SelfTraffic.{SelfTraffic, between, active}

instance abbrev pub bytes_eq : Eq (List ℕ)
bytes_eq = record { beq = same; beq_iff = same_iff }

pub record Counters : Type 0 where
  pub rx_bytes : ℕ
  pub tx_bytes : ℕ
  pub rx_packets : ℕ
  pub tx_packets : ℕ
  pub rx_errors : ℕ
  pub tx_errors : ℕ
  pub rx_dropped : ℕ
  pub tx_dropped : ℕ

-- What the sampler reads of `platform.Interface`.
pub record Interface : Type 0 where
  pub name : List ℕ
  pub type : List ℕ
  pub counters : Counters

module _ (F : Type 0) where
  pub record Sample : Type 0 where
    pub time : ℕ
    pub interface : List ℕ
    pub type : List ℕ
    pub interval : ℤ
    pub counters : Counters
    pub rx_delta : ℤ
    pub tx_delta : ℤ
    pub errors_delta : ℤ
    pub dropped_delta : ℤ
    pub rx_bps : F
    pub tx_bps : F
    pub self_rx_bps : F
    pub self_tx_bps : F
    pub self_active : Bool
    pub reset : Bool

pub record Config : Type 0 where
  pub include : List (List ℕ)
  pub exclude : List (List ℕ)
  pub exclude_self : Bool

module _ (F : Type 0) where
  pub record Sampler : Type 0 where
    pub cfg : Config
    pub self : Option SelfTraffic
    pub prev : List (List ℕ × Sample F)

-- `int64(x)` of a 64-bit number.
abbrev pub int64 : ℕ → ℤ
int64 x = if ltb x (2 ^ 63) then pos x else negsuc (2 ^ 64 - x - 1)

-- `int64(a1+a2) - int64(b1+b2)`, all in 64 bits.
abbrev pub sum_diff : ℕ → ℕ → ℕ → ℕ → ℤ
sum_diff a1 a2 b1 b2 = int64 (((a1 + a2) % 2 ^ 64 + 2 ^ 64 - (b1 + b2) % 2 ^ 64) % 2 ^ 64)

abbrev pub went_back : Counters → Counters → Bool
went_back c p = ltb c.rx_bytes p.rx_bytes || ltb c.tx_bytes p.tx_bytes

abbrev loopback : List ℕ
loopback = b'l' ∷ b'o' ∷ b'o' ∷ b'p' ∷ b'b' ∷ b'a' ∷ b'c' ∷ b'k' ∷ []

-- `IsLoopback`
abbrev pub is_loopback : Interface → Bool
is_loopback iface = same iface.type loopback

module _ (lower : List ℕ → List ℕ) where
  -- `monitored`
  unfoldable pub monitored : Config → Interface → Bool
  monitored cfg iface =
      if is_loopback iface
      then false
      else if ltb 0 (length cfg.include)
      then matches_any_glob lower cfg.include iface.name
      else if matches_any_glob lower cfg.exclude iface.name
      then false
      else true

  -- `seen`
  unfoldable pub seen : Config → List Interface → List ℕ → Bool
  seen cfg [] name = false
  seen cfg (iface ∷ rest) name = monitored cfg iface && same iface.name name || seen cfg rest name

module _ {F : Type 0} ⦃fl : Floats F⦄ where
  -- `Usable`
  unfoldable pub usable : Sample F → Bool
  usable s = not s.reset && ltb_ℤ (pos 0) s.interval

  unfoldable pub new_sampler : Config → Option SelfTraffic → Sampler F
  new_sampler cfg self = record { cfg = cfg; self = self; prev = [] }

  abbrev pub reading : Interface → ℕ → Sample F
  reading iface now = record {
    time = now;
    interface = iface.name;
    type = iface.type;
    interval = pos 0;
    counters = iface.counters;
    rx_delta = pos 0;
    tx_delta = pos 0;
    errors_delta = pos 0;
    dropped_delta = pos 0;
    rx_bps = nought;
    tx_bps = nought;
    self_rx_bps = nought;
    self_tx_bps = nought;
    self_active = false;
    reset = false;
  }

  -- `Seconds` of a positive duration.
  abbrev seconds : ℕ → F
  seconds d =
      fl.add (fl.of_count (d / 1_000_000_000))
        (fl.div (fl.of_count (d % 1_000_000_000)) (fl.decimal 1_000_000_000 0))

  -- `float64(n)` of an int64.
  abbrev of_int : ℤ → F
  of_int (pos n) = fl.of_count n
  of_int (negsuc n) = fl.neg (fl.of_count (n + 1))

  abbrev bits : ℤ → F
  bits n = fl.mul (of_int n) (fl.decimal 8 0)

  -- `math.Max(0, x)`
  abbrev at_least_nought : F → F
  at_least_nought x = if fl.is_nan x || fl.lt nought x then x else nought

  abbrev pub timed : Sample F → Sample F → Sample F
  timed prev cur = record cur { interval = sub_ℕ cur.time prev.time }

  abbrev pub measured : Sample F → Sample F → Sample F
  measured prev cur =
      let c = cur.counters in
      let p = prev.counters in
      record cur {
        rx_delta = int64 (c.rx_bytes - p.rx_bytes);
        tx_delta = int64 (c.tx_bytes - p.tx_bytes);
        errors_delta = sum_diff c.rx_errors c.tx_errors p.rx_errors p.tx_errors;
        dropped_delta = sum_diff c.rx_dropped c.tx_dropped p.rx_dropped p.tx_dropped;
      }

  module _ (scale : ℕ → ℕ → ℕ → ℕ) where
    -- The rates of a sample since an instant, over an interval of some length.
    abbrev with_rates : Bool → Option SelfTraffic → ℕ → ℕ → Sample F → Sample F
    with_rates exclude none from length cur = record cur {
      rx_bps = fl.div (bits cur.rx_delta) (seconds length);
      tx_bps = fl.div (bits cur.tx_delta) (seconds length);
    }
    with_rates false (some self) from length cur = record cur {
      rx_bps = fl.div (bits cur.rx_delta) (seconds length);
      tx_bps = fl.div (bits cur.tx_delta) (seconds length);
    }
    with_rates true (some self) from length cur =
        let own = between scale self from cur.time in
        record cur {
          self_rx_bps = fl.div (bits (pos own.0)) (seconds length);
          self_tx_bps = fl.div (bits (pos own.1)) (seconds length);
          self_active = active self from cur.time;
          rx_bps =
              fl.div (at_least_nought (fl.sub (bits cur.rx_delta) (bits (pos own.0))))
                (seconds length);
          tx_bps =
              fl.div (at_least_nought (fl.sub (bits cur.tx_delta) (bits (pos own.1))))
                (seconds length);
        }

    -- The sample of an interface, against its previous reading.
    unfoldable pub compare : Config → Option SelfTraffic → Sample F → Sample F → Option (Sample F)
    compare cfg self prev read =
        let cur = timed prev read in
        if leb_ℤ cur.interval (pos 0)
        then none
        else if went_back cur.counters prev.counters
        then some (record cur { reset = true })
        else some
            (with_rates cfg.exclude_self self prev.time (pos_part cur.interval) (measured prev cur))

    abbrev pub tell : Option (Sample F) → List (Sample F) → List (Sample F)
    tell none out = out
    tell (some s) out = s ∷ out

    abbrev pub against :
        Config → Option SelfTraffic → Option (Sample F) → Sample F → Option (Sample F)
    against cfg self none cur = none
    against cfg self (some prev) cur = compare cfg self prev cur

    -- The loop of `Sample` over the interfaces, with the readings that it keeps.
    unfoldable pub sample_all :
        (List ℕ → List ℕ)
        → Config
        → Option SelfTraffic
        → ℕ
        → List (List ℕ × Sample F)
        → List Interface
        → List (List ℕ × Sample F) × List (Sample F)
    sample_all lower cfg self now held [] = (held, [])
    sample_all lower cfg self now held (iface ∷ rest) =
        let cur = reading iface now in
        let skipped = sample_all lower cfg self now held rest in
        let taken = sample_all lower cfg self now (put iface.name cur held) rest in
        if monitored lower cfg iface
        then (taken.0, tell (against cfg self (get iface.name held) cur) taken.1)
        else skipped

    -- `Sample`
    unfoldable pub sample :
        (List ℕ → List ℕ) → Sampler F → List Interface → ℕ → Sampler F × List (Sample F)
    sample lower s ifaces now =
        let (held, out) = sample_all lower s.cfg s.self now s.prev ifaces in
        (record s { prev = retain (λ name x. seen lower s.cfg ifaces name) held }, out)

  -- `Primary`
  unfoldable pub primary : List (Sample F) → List ℕ → Option (Sample F)
  primary [] name = none
  primary (s ∷ rest) name = if same s.interface name then some s else primary rest name

  abbrev total_bps : Sample F → F
  total_bps s = fl.add s.rx_bps s.tx_bps

  abbrev busier : Option (Sample F) → Sample F → Bool
  busier none s = true
  busier (some best) s = fl.lt (total_bps best) (total_bps s)

  -- `Busiest`, from the best so far.
  unfoldable pub busiest : Option (Sample F) → List (Sample F) → Option (Sample F)
  busiest best [] = best
  busiest best (s ∷ rest) = busiest (if usable s && busier best s then some s else best) rest
