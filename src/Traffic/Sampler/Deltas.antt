-- ===== src/Traffic/Sampler/Deltas.antt =====
-- internal/traffic/sampler.go: what a reported sample says of two readings.
use mathlib.Core.Path.{subst}
use i_pulse.Base.{
  ℕ, pos, pos_part, sub_ℕ, leb_ℤ, ◌-◌, ◌≤◌, ◌≡◌, ◌⊎◌, inl, inr, refl, ap, sym, ◌∙◌, Bool, true,
  false, List, [], ◌∷◌, Option, none, some, arith, Bool-cases, Option-cases, Floats, All, get, put,
  get-put,
}
use i_pulse.Traffic.SelfTraffic.{SelfTraffic}
use i_pulse.Util.Glob.{same}
use i_pulse.Traffic.Sampler.{
  Interface, Counters, Config, Sampler, Sample, int64, went_back, monitored, reading, compare,
  with_rates, timed, measured, tell, against, sample_all, sample, bytes_eq,
}

forward :
    (c p : Counters) → went_back c p ≡ false → (p.rx_bytes ≤ c.rx_bytes) × (p.tx_bytes ≤ c.tx_bytes)
forward c p h = (ground (arith, h), ground (arith, h))

no_time : (now t : ℕ) → t ≡ now → leb_ℤ (sub_ℕ now t) (pos 0) ≡ true
no_time now t h = ground (arith, h)

module _ {F : Type 0} ⦃fl : Floats F⦄ (scale : ℕ → ℕ → ℕ → ℕ) where
  -- A sample between two readings of one interface.
  pub record IsBetween (p x : Sample F) (now : ℕ) : Type 0 where
    pub interval : x.interval ≡ sub_ℕ now p.time
    pub later : leb_ℤ x.interval (pos 0) ≡ false
    pub is_reset : x.reset ≡ went_back x.counters p.counters
    pub nothing : x.reset ≡ true → (x.rx_delta ≡ pos 0) × (x.tx_delta ≡ pos 0)
    pub received :
        x.reset ≡ false
        → (p.counters.rx_bytes ≤ x.counters.rx_bytes)
          × (x.rx_delta ≡ int64 (x.counters.rx_bytes - p.counters.rx_bytes))
    pub sent :
        x.reset ≡ false
        → (p.counters.tx_bytes ≤ x.counters.tx_bytes)
          × (x.tx_delta ≡ int64 (x.counters.tx_bytes - p.counters.tx_bytes))

  -- The rates leave the rest of a sample alone.
  rates_only :
      (exclude : Bool) (self : Option SelfTraffic) (from length : ℕ) (x : Sample F)
      → let y = with_rates scale exclude self from length x in
        (y.interface ≡ x.interface)
        × (y.interval ≡ x.interval)
        × (y.counters ≡ x.counters)
        × (y.rx_delta ≡ x.rx_delta)
        × (y.tx_delta ≡ x.tx_delta)
        × (y.reset ≡ x.reset)
  rates_only exclude none from length x = (refl, refl, refl, refl, refl, refl)
  rates_only false (some self) from length x = (refl, refl, refl, refl, refl, refl)
  rates_only true (some self) from length x = (refl, refl, refl, refl, refl, refl)

  IsFor : Interface → ℕ → Sample F → Sample F → Type 0
  IsFor iface now p x =
      (x.interface ≡ iface.name) × (x.counters ≡ iface.counters) × IsBetween p x now

  compare-IsFor :
      (cfg : Config) (self : Option SelfTraffic) (p : Sample F) (iface : Interface) (now : ℕ)
      (x : Sample F)
      → compare scale cfg self p (reading iface now) ≡ some x
      → IsFor iface now p x
  unfolding compare IsFor
  compare-IsFor cfg self p iface now x h =
      let cur = timed p (reading iface now) in
      let out = compare scale cfg self p (reading iface now) in
      elim (Bool-cases (leb_ℤ (sub_ℕ now p.time) (pos 0))) [
        | inl early ↦ let none_told : out ≡ none = rw early refl in absurd (cc (sym none_told ∙ h))
        | inr later ↦ elim (Bool-cases (went_back iface.counters p.counters)) [
          | inl back ↦
              let told : out ≡ some (record cur { reset = true }) = rw (later, back) refl in
              let is : record cur { reset = true } ≡ x = cc (sym told ∙ h) in
              subst (IsFor iface now p) is (
                refl,
                refl,
                record {
                  interval = refl;
                  later = later;
                  is_reset = sym back;
                  nothing = λ e. (refl, refl);
                  received = λ e. absurd (cc e);
                  sent = λ e. absurd (cc e);
                },
              )
          | inr on ↦
              let y =
                with_rates scale cfg.exclude_self self p.time (pos_part cur.interval)
                  (measured p cur) in
              let told : out ≡ some y = rw (later, on) refl in
              let is : y ≡ x = cc (sym told ∙ h) in
              let (name, interval, counters, rx, tx, reset) =
                rates_only cfg.exclude_self self p.time (pos_part cur.interval) (measured p cur) in
              let (more_rx, more_tx) = forward iface.counters p.counters on in
              subst (IsFor iface now p) is (
                name,
                counters,
                record {
                  interval = interval;
                  later = ap (λ d. leb_ℤ d (pos 0)) interval ∙ later;
                  is_reset = reset ∙ sym on ∙ sym (ap (λ c. went_back c p.counters) counters);
                  nothing = λ e. absurd (cc (sym reset ∙ e));
                  received = λ e. (
                    subst (λ c. p.counters.rx_bytes ≤ c.rx_bytes) (sym counters) more_rx,
                    rx ∙ ap (λ c. int64 (c.rx_bytes - p.counters.rx_bytes)) (sym counters),
                  );
                  sent = λ e. (
                    subst (λ c. p.counters.tx_bytes ≤ c.tx_bytes) (sym counters) more_tx,
                    tx ∙ ap (λ c. int64 (c.tx_bytes - p.counters.tx_bytes)) (sym counters),
                  );
                },
              )
        ]
      ]

  -- The readings held in the loop are those from before the call, or of this instant.
  Settled : ℕ → List (List ℕ × Sample F) → List (List ℕ × Sample F) → Type 0
  Settled now before held =
      (n : List ℕ)
      → (get n held ≡ get n before) ⊎ ((y : Sample F) × (get n held ≡ some y) × (y.time ≡ now))

  put-Settled :
      (now : ℕ) (before held : List (List ℕ × Sample F)) (iface : Interface)
      → Settled now before held
      → Settled now before (put iface.name (reading iface now) held)
  unfolding Settled
  put-Settled now before held iface h n =
      let found = get-put iface.name n (reading iface now) held in
      elim (Bool-cases (bytes_eq.beq iface.name n)) [
        | inl same ↦ inr (reading iface now, found ∙ rw same refl, refl)
        | inr other ↦
            let kept : get n (put iface.name (reading iface now) held) ≡ get n held =
              found ∙ rw other refl in
            elim (h n) [
              | inl old ↦ inl (kept ∙ old)
              | inr (y, at, now_is) ↦ inr (y, kept ∙ at, now_is)
            ]
      ]

  -- A sample of an interface since the reading from before the call.
  IsTrue : ℕ → List (List ℕ × Sample F) → Sample F → Type 0
  IsTrue now before x = (p : Sample F) × (get x.interface before ≡ some p) × IsBetween p x now

  told-IsTrue :
      (cfg : Config) (self : Option SelfTraffic) (now : ℕ) (before held : List (List ℕ × Sample F))
      (iface : Interface) (rest : List (Sample F))
      → Settled now before held
      → All (IsTrue now before) rest
      → All
          (IsTrue now before)
          (tell scale (against scale cfg self (get iface.name held) (reading iface now)) rest)
  unfolding IsTrue IsFor Settled
  told-IsTrue cfg self now before held iface rest h more =
      elim (Option-cases (get iface.name held)) [
        | inl first ↦ rw first more
        | inr (p, at) ↦ elim (Option-cases (compare scale cfg self p (reading iface now))) [
          | inl quiet ↦ rw (at, quiet) more
          | inr (x, told) ↦
              let (name, counters, between) = compare-IsFor cfg self p iface now x told in
              let known : get x.interface before ≡ some p = elim (h iface.name) [
                | inl old ↦ ap (λ n. get n before) name ∙ sym old ∙ at
                | inr (y, now_at, now_is) ↦
                    let same_one : y ≡ p = cc (sym now_at ∙ at) in
                    let p_now : p.time ≡ now = ap (λ s. s.time) (sym same_one) ∙ now_is in
                    let none_passed : leb_ℤ x.interval (pos 0) ≡ true =
                      ap (λ d. leb_ℤ d (pos 0)) between.interval ∙ no_time now p.time p_now in
                    absurd (cc (sym none_passed ∙ between.later))
              ] in
              rw (at, told) ((p, known, between), more)
        ]
      ]

  sample_all-IsTrue :
      (lower : List ℕ → List ℕ) (cfg : Config) (self : Option SelfTraffic) (now : ℕ)
      (before held : List (List ℕ × Sample F)) (ifaces : List Interface)
      → Settled now before held
      → All (IsTrue now before) (sample_all scale lower cfg self now held ifaces).1
  unfolding sample_all
  sample_all-IsTrue lower cfg self now before held [] h = tt
  sample_all-IsTrue lower cfg self now before held (iface ∷ rest) h =
      let put_in = put-Settled now before held iface h in
      let taken =
        sample_all-IsTrue lower cfg self now before (put iface.name (reading iface now) held) rest
          put_in in
      let skipped = sample_all-IsTrue lower cfg self now before held rest h in
      elim (Bool-cases (monitored lower cfg iface)) [
        | inl on ↦ rw on (told-IsTrue cfg self now before held iface _ h taken)
        | inr off ↦ rw off skipped
      ]

  -- Whatever interfaces a call reads, two of the same name included, every sample that it reports compares
  -- an interface with the reading that the sampler kept of it from before the call: the interval is the
  -- time since that reading and positive; the sample is a reset exactly when a counter of bytes went back,
  -- and then its byte deltas are zero; otherwise each byte delta is the growth of its counter, as a signed
  -- number.
  pub sample-IsTrue :
      (lower : List ℕ → List ℕ) (s : Sampler F) (ifaces : List Interface) (now : ℕ)
      → All
          (λ x. (p : Sample F) × (get x.interface s.prev ≡ some p) × IsBetween p x now)
          (sample scale lower s ifaces now).1
  unfolding sample IsTrue Settled
  sample-IsTrue lower s ifaces now =
      sample_all-IsTrue lower s.cfg s.self now s.prev s.prev ifaces (λ n. inl refl)
