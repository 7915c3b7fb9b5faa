-- ===== src/Api/RateLimit/Hits.antt =====
-- internal/api/api.go: what the limiter stores of one key, against the requests that were granted.
use mathlib.Core.Path.{subst}
use i_pulse.Base.{
  ℕ, ◌≤◌, ◌<◌, ◌≡◌, refl, ap, sym, ◌∙◌, inl, inr, Bool, true, not, List, [], ◌∷◌, ◌++◌, String,
  Option, none, some, arith, ltb, leb, leb→le, if◌then◌else◌, length, length-keep_if-le,
  length-append, drop, keep_if, From, last_at, From-append, From-keep_if, last_at-keep_if, get, put,
  get-put, get-retain, string_eq, Bool-cases, Option-cases, ◌⊎◌, only_if, test_at,
}
use i_pulse.Api.RateLimit.{Limiter, recent, instants, overwritten, last_before, bounded}

abbrev pub itself : ℕ → ℕ
itself t = t

abbrev pub hits_of : Limiter → String → List ℕ
hits_of l k = instants (get k l.hits)

later_hits :
    (w t now : ℕ) (l : List ℕ)
    → t ≤ now
    → keep_if (recent w now) (keep_if (recent w t) l) ≡ keep_if (recent w now) l
later_hits w t now [] le = refl
later_hits w t now (x ∷ l) le = ground (arith, later_hits w t now l le)

keep_if-whole : (p : ℕ → Bool) (l : List ℕ) → length l ≤ length (keep_if p l) → keep_if p l ≡ l
keep_if-whole p [] h = refl
keep_if-whole p (x ∷ l) h = ground (arith, keep_if-whole p l, length-keep_if-le p l)

idle :
    (w now t : ℕ) (l : List ℕ)
    → From itself t l
    → last_before w now l ≡ true
    → keep_if (recent w now) l ≡ []
idle w now t [] h last = refl
idle w now t (x ∷ []) h last = ground arith
idle w now t (x ∷ y ∷ l) h last = ground (arith, idle w now x (y ∷ l) h.1 last)

keep_if-append :
    (p : ℕ → Bool) (xs ys : List ℕ) → keep_if p (xs ++ ys) ≡ keep_if p xs ++ keep_if p ys
keep_if-append p [] ys = refl
keep_if-append p (x ∷ xs) ys = ground (arith, keep_if-append p xs ys)

drop-all : (l : List ℕ) → l ++ drop (length l) l ≡ l
drop-all [] = refl
drop-all (x ∷ l) = ap (λ m. x ∷ m) (drop-all l)

abbrev busy : ℕ → ℕ → String → List ℕ → Bool
busy w now key l = not (last_before w now l)

busy-hits :
    (w now : ℕ) (k : String) (o : Option (List ℕ))
    → (instants (only_if (test_at (busy w now) k o) o) ≡ instants o)
      ⊎ ((last_before w now (instants o) ≡ true)
          × (instants (only_if (test_at (busy w now) k o) o) ≡ []))
busy-hits w now k none = inl refl
busy-hits w now k (some l) = elim (Bool-cases (last_before w now l)) [
  | inl last ↦ inr (last, rw last refl)
  | inr fresh ↦ inl (rw fresh refl)
]

-- Deleting idle keys leaves the hits of a key, or deletes them all when the last is before the
-- cutoff.
bounded-hits :
    (w now : ℕ) (k : String) (m : List (String × List ℕ))
    → (instants (get k (bounded w now m)) ≡ instants (get k m))
      ⊎ ((last_before w now (instants (get k m)) ≡ true)
          × (instants (get k (bounded w now m)) ≡ []))
bounded-hits w now k m = elim (Bool-cases (ltb 1024 (length m))) [
  | inr few ↦ inl (rw few refl)
  | inl many ↦
      let kept : get k (bounded w now m) ≡ only_if (test_at (busy w now) k (get k m)) (get k m) =
        rw many (get-retain (busy w now) k m) in
      subst
        (λ x.
          (instants x ≡ instants (get k m))
          ⊎ ((last_before w now (instants (get k m)) ≡ true) × (instants x ≡ [])))
        (sym kept) (busy-hits w now k (get k m))
]

-- What holds of the hits of a key at an instant, against its granted requests so far, under a limit
-- and a window.
pub record Tracks (n w : ℕ) (hs g : List ℕ) (t : ℕ) : Type 0 where
  pub within : length hs ≤ n
  pub ordered : From itself 0 hs
  pub past : last_at itself 0 hs ≤ t
  pub same : keep_if (recent w t) hs ≡ keep_if (recent w t) g

pub later-Tracks :
    (n w : ℕ) (hs g : List ℕ) (t now : ℕ) → Tracks n w hs g t → t ≤ now → Tracks n w hs g now
later-Tracks n w hs g t now h le = record {
  within = h.within;
  ordered = h.ordered;
  past = omega (arith, h.past);
  same =
      sym (later_hits w t now hs le) ∙ ap (keep_if (recent w now)) h.same ∙ later_hits w t now g le;
}

gone-Tracks :
    (n w : ℕ) (hs g : List ℕ) (now : ℕ)
    → Tracks n w hs g now
    → last_before w now hs ≡ true
    → Tracks n w [] g now
gone-Tracks n w hs g now h last = record {
  within = omega arith;
  ordered = tt;
  past = omega arith;
  same = sym (idle w now 0 hs h.ordered last) ∙ h.same;
}

pub pushed-Tracks :
    (n w : ℕ) (hs g : List ℕ) (now : ℕ)
    → Tracks n w hs g now
    → length (keep_if (recent w now) hs) < n
    → Tracks n w (keep_if (recent w now) hs ++ now ∷ []) (g ++ now ∷ []) now
pushed-Tracks n w hs g now h room =
    let kept = keep_if (recent w now) hs in
    let ends = last_at-keep_if itself (recent w now) 0 0 hs h.ordered (omega arith) in
    let all =
      From-append itself 0 kept now
        (From-keep_if itself (recent w now) 0 0 hs h.ordered (omega arith))
        (omega (arith, h.past, ends)) in
    record {
      within = omega (arith, length-append kept (now ∷ []));
      ordered = all.0;
      past = omega (arith, all.1);
      same =
          keep_if-append (recent w now) kept (now ∷ [])
          ∙ ap (λ l. l ++ keep_if (recent w now) (now ∷ []))
              (later_hits w now now hs (omega arith) ∙ h.same)
          ∙ sym (keep_if-append (recent w now) g (now ∷ []));
    }

-- A refusal leaves the hits of its key as they were, although it has written over their array.
pub refused-hits :
    (l : Limiter) (key k : String) (now : ℕ)
    → length (hits_of l k) ≤ l.limit
    → leb l.limit (length (keep_if (recent l.window now) (hits_of l key))) ≡ true
    → instants (get k (overwritten l.window now (get key l.hits) key l.hits)) ≡ hits_of l k
refused-hits l key k now within full = elim (Option-cases (get key l.hits)) [
  | inl missing ↦ rw missing refl
  | inr (old, there) ↦
      let kept = keep_if (recent l.window now) old in
      let m = kept ++ drop (length kept) old in
      let now_there = get-put key k m l.hits in
      let step : overwritten l.window now (get key l.hits) key l.hits ≡ put key m l.hits =
        rw there refl in
      ap (λ x. instants (get k x)) step
      ∙ ap instants now_there
      ∙ elim (Bool-cases (string_eq.beq key k)) [
        | inr other ↦ rw other refl
        | inl equal ↦
            let held : hits_of l k ≡ old =
              ap (λ j. hits_of l j) (sym ((string_eq.beq_iff key k).0 equal)) ∙ ap instants there in
            let front : keep_if (recent l.window now) (hits_of l key) ≡ kept =
              ap (λ o. keep_if (recent l.window now) (instants o)) there in
            let size : length (hits_of l k) ≡ length old = ap length held in
            let front_size = ap length front in
            let reached =
              leb→le l.limit (length (keep_if (recent l.window now) (hits_of l key))) full in
            let whole : kept ≡ old =
              keep_if-whole (recent l.window now) old (omega (arith, size, front_size, reached)) in
            rw equal (ap (λ x. x ++ drop (length x) old) whole ∙ drop-all old ∙ sym held)
      ]
]

-- What a grant leaves of the hits of a key, before the idle keys are deleted.
pub granted-hits :
    (l : Limiter) (key k : String) (now : ℕ)
    → let kept = keep_if (recent l.window now) (hits_of l key) in
      instants (get k (put key (kept ++ now ∷ []) l.hits)) ≡ (
        if string_eq.beq key k
        then keep_if (recent l.window now) (hits_of l k) ++ now ∷ []
        else hits_of l k)
granted-hits l key k now =
    let kept = keep_if (recent l.window now) (hits_of l key) in
    ap instants (get-put key k (kept ++ now ∷ []) l.hits)
    ∙ elim (Bool-cases (string_eq.beq key k)) [
      | inr other ↦ rw other refl
      | inl equal ↦ rw equal (
          ap (λ j. keep_if (recent l.window now) (hits_of l j) ++ now ∷ [])
            ((string_eq.beq_iff key k).0 equal))
    ]

pub bounded-Tracks :
    (n w : ℕ) (k : String) (m : List (String × List ℕ)) (g : List ℕ) (now : ℕ)
    → Tracks n w (instants (get k m)) g now
    → Tracks n w (instants (get k (bounded w now m))) g now
bounded-Tracks n w k m g now h = elim (bounded-hits w now k m) [
  | inl same ↦ subst (λ hs. Tracks n w hs g now) (sym same) h
  | inr (last, gone) ↦
      subst (λ hs. Tracks n w hs g now) (sym gone)
        (gone-Tracks n w (instants (get k m)) g now h last)
]
