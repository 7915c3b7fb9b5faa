-- ===== src/Correlation/Window.antt =====
-- internal/correlation/window.go: `Signal` and `Window`. The measured value of a signal is a float,
-- which the window only stores: its type is a parameter. Instants are nanoseconds since Go's zero
-- time, which is 0.
pub mod Laws
use i_pulse.Base.{
  ℕ, ℤ, pos, pos_part, leb_ℤ, ◌+◌, ◌-◌, Bool, true, false, List, [], ◌∷◌, ◌++◌, String, ltb, ◌==◌,
  if◌then◌else◌, length, drop, expire,
}

pub data SignalKind : Type 0 where
  event sample : SignalKind

abbrev pub is_event : SignalKind → Bool
is_event event = true
is_event sample = false

module _ (F : Type 0) where
  pub record Signal : Type 0 where
    pub time : ℕ
    pub kind : SignalKind
    pub name : String
    pub code : ℕ
    pub value : F
    pub target : String
    pub fields : List (String × String)
    pub event_id : ℤ

  pub record Window : Type 0 where
    pub duration : ℕ
    pub signals : List Signal
    pub max : ℕ

module _ {F : Type 0} where
  abbrev pub signal_at : Signal F → ℕ
  signal_at s = s.time

  -- Three minutes, if the given duration is not positive.
  unfoldable pub new_window : ℤ → Window F
  new_window d = record {
    duration = if leb_ℤ d (pos 0) then 180_000_000_000 else pos_part d;
    signals = [];
    max = 4096;
  }

  -- The second cut of `trimLocked`, to the most recent signals.
  abbrev pub cut : ℕ → List (Signal F) → List (Signal F)
  cut max l = if ltb max (length l) then drop (length l - max) l else l

  -- `trimLocked`
  unfoldable pub trim : Window F → ℕ → Window F
  trim w now = record w { signals = cut w.max (expire signal_at w.duration now w.signals) }

  -- A signal with no time gets `now`, what the clock says.
  abbrev pub stamped : ℕ → Signal F → Signal F
  stamped now s = record s { time = if s.time == 0 then now else s.time }

  unfoldable pub add : Window F → ℕ → Signal F → Window F
  unfolding trim
  add w now s = let t = stamped now s in trim (record w { signals = w.signals ++ t ∷ [] }) t.time

  unfoldable pub snapshot : Window F → ℕ → Window F × List (Signal F)
  unfolding trim
  snapshot w now = let t = trim w now in (t, t.signals)
