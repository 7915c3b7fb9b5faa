-- ===== src/Traffic/Examples.antt =====
-- The rolling windows and the own transfers at concrete inputs.
use i_pulse.Base.{ℕ, pos, ◌≤◌, ◌≡◌, List, [], ◌∷◌, arith, keep_if, fresh}
use i_pulse.Traffic.Window.{entry_at, new_accumulator, totals, sum_rx}
use i_pulse.Traffic.Window.Laws.{Sample, add_all, entries_of, totals-add_all}
use i_pulse.Traffic.SelfTraffic.{Transfer, SelfTraffic, between}
use i_pulse.Traffic.SelfTraffic.Attribution.{total, between_bounded}

abbrev samples : List Sample
samples = (1, pos 100, pos 10) ∷ (5, pos 200, pos 20) ∷ (9, pos 300, pos 30) ∷ []

totals-add_all_example :
    (totals (add_all (new_accumulator (pos 5)) samples) 11).1.rx
    ≡ sum_rx (keep_if (fresh entry_at (new_accumulator (pos 5)).window 11) (entries_of samples))
totals-add_all_example =
    (totals-add_all (pos 5) samples 11 (omega arith, (omega arith, (omega arith, tt)))
      (omega arith)).0

abbrev probe : Transfer
probe = record { start = 4; end = 8; rx = 1000; tx = 50; reason = "speed test" }

-- All of the bytes, of an instance of the arithmetic.
abbrev whole_count : ℕ → ℕ → ℕ → ℕ
whole_count bytes part whole = bytes

abbrev one_probe : SelfTraffic
one_probe = record { windows = probe ∷ []; retained = 100 }

between_bounded_example : (between whole_count one_probe 2 6).0 ≤ (total (probe ∷ [])).0
between_bounded_example =
    (between_bounded whole_count (λ bytes part whole h k. omega arith) one_probe 2 6
      ((omega arith, omega arith, omega arith), tt)).0
