-- ===== src/Traffic/SamplerExamples.antt =====
-- The sampler at concrete inputs: one interface, read twice in a call, ten nanoseconds after its last
-- reading.
use i_pulse.Base.{ℕ, ◌≡◌, false, List, [], ◌∷◌, none, some, All, get}
use i_pulse.Util.Glob.{star}
use i_pulse.Traffic.Sampler.{
  Interface, Counters, Config, Sampler, Sample, reading, sample, bytes_eq,
}
use i_pulse.Traffic.Sampler.Deltas.{IsBetween, sample-IsTrue}
use i_pulse.Traffic.Sampler.Readings.{IsNewest, sample-keeps}
use i_pulse.Fixtures.{whole}

abbrev eth : List ℕ
eth = b'e' ∷ b'0' ∷ []

abbrev counted : ℕ → Counters
counted n = record {
  rx_bytes = n;
  tx_bytes = n;
  rx_packets = 1;
  tx_packets = 1;
  rx_errors = 0;
  tx_errors = 0;
  rx_dropped = 0;
  tx_dropped = 0;
}

abbrev card : ℕ → Interface
card n = record { name = eth; type = eth; counters = counted n }

abbrev everything : Config
everything = record { include = (star ∷ []) ∷ []; exclude = []; exclude_self = false }

abbrev read_once : Sampler ℕ
read_once = record { cfg = everything; self = none; prev = (eth, reading (card 100) 5) ∷ [] }

abbrev nothing_scaled : ℕ → ℕ → ℕ → ℕ
nothing_scaled bytes part length = 0

abbrev as_is : List ℕ → List ℕ
as_is s = s

sample-IsTrue_example :
    All
      (λ x.
        (p : Sample ℕ) × (get x.interface read_once.prev ≡ some p)
        × IsBetween nothing_scaled p x 15)
      (sample nothing_scaled as_is read_once (card 150 ∷ card 160 ∷ []) 15).1
sample-IsTrue_example = sample-IsTrue nothing_scaled as_is read_once (card 150 ∷ card 160 ∷ []) 15

sample-keeps_example :
    IsNewest nothing_scaled as_is everything
      (card 150 ∷ card 160 ∷ [])
      15
      eth
      (get eth (sample nothing_scaled as_is read_once (card 150 ∷ card 160 ∷ []) 15).0.prev)
sample-keeps_example = sample-keeps nothing_scaled as_is read_once (card 150 ∷ card 160 ∷ []) 15 eth
