-- ===== src/Traffic/Window.antt =====
-- internal/traffic/window.go, `WindowAccumulator`, and the record of `PeriodDetector`. A method on a
-- pointer returns the new record, its result beside it. Instants and widths are nanoseconds; byte
-- totals are not wrapped, since 2 ^ 63 bytes do not pass within a window.
pub mod Laws
use i_pulse.Base.{
  ℕ, ℤ, pos, pos_part, ltb_ℤ, leb_ℤ, sub_ℕ, ◌+◌, ◌-◌, ◌*◌, ◌/◌, Bool, true, false, List, [], ◌∷◌,
  ◌++◌, ltb, leb, if◌then◌else◌, length, drop, expire,
}

pub record Entry : Type 0 where
  pub at : ℕ
  pub rx : ℕ
  pub tx : ℕ

abbrev pub entry_at : Entry → ℕ
entry_at e = e.at

pub record Accumulator : Type 0 where
  pub window : ℕ
  pub entries : List Entry

-- Five minutes, if the given window is not positive.
unfoldable pub new_accumulator : ℤ → Accumulator
new_accumulator w = record {
  window = if leb_ℤ w (pos 0) then 300_000_000_000 else pos_part w;
  entries = [];
}

-- `trimLocked`
unfoldable pub trim : Accumulator → ℕ → Accumulator
trim w now = record w { entries = expire entry_at w.window now w.entries }

-- A negative count is taken for 0.
abbrev pub not_negative : ℤ → ℕ
not_negative n = if ltb_ℤ n (pos 0) then 0 else pos_part n

unfoldable pub add : Accumulator → ℕ → ℤ → ℤ → Accumulator
unfolding trim
add w at rx tx =
    let entry : Entry = record { at = at; rx = not_negative rx; tx = not_negative tx } in
    trim (record w { entries = w.entries ++ entry ∷ [] }) at

unfoldable pub sum_rx : List Entry → ℕ
sum_rx [] = 0
sum_rx (e ∷ es) = e.rx + sum_rx es

unfoldable pub sum_tx : List Entry → ℕ
sum_tx [] = 0
sum_tx (e ∷ es) = e.tx + sum_tx es

pub record Totals : Type 0 where
  pub rx : ℕ
  pub tx : ℕ
  pub span : ℤ

totals_of : List Entry → ℕ → Totals
unfolding sum_rx sum_tx
totals_of [] now = record { rx = 0; tx = 0; span = pos 0 }
totals_of (e ∷ es) now = record {
  rx = sum_rx (e ∷ es);
  tx = sum_tx (e ∷ es);
  span = sub_ℕ now e.at;
}

unfoldable pub totals : Accumulator → ℕ → Accumulator × Totals
unfolding trim totals_of
totals w now = let t = trim w now in (t, totals_of t.entries now)

-- At least three quarters of the window, as Go's integer division has it.
complete_of : ℕ → List Entry → ℕ → Bool
complete_of window [] now = false
complete_of window (e ∷ es) now = leb_ℤ (pos (window * 3 / 4)) (sub_ℕ now e.at)

unfoldable pub complete : Accumulator → ℕ → Bool
unfolding complete_of
complete w now = complete_of w.window w.entries now

-- The occurrences that a period detector retains, oldest first.
pub record Occurrences : Type 0 where
  pub times : List ℕ
  pub max : ℕ

unfoldable pub new_occurrences : ℤ → Occurrences
new_occurrences n = record { times = []; max = if ltb_ℤ n (pos 4) then 12 else pos_part n }

unfoldable pub record_at : Occurrences → ℕ → Occurrences
record_at p at =
    let times = p.times ++ at ∷ [] in
    if ltb p.max (length times)
    then record p { times = drop (length times - p.max) times }
    else record p { times = times }
