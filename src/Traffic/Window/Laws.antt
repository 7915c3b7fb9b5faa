-- ===== src/Traffic/Window/Laws.antt =====
-- internal/traffic/window.go: what the rolling window holds after any sequence of samples.
use i_pulse.Base.{
  last_of, cut-last_of, drop-nil, if◌then◌else◌, ltb, last_of-push, ℕ, ℤ, ◌-◌, ◌≤◌, ◌≡◌, refl, ap,
  sym, ◌∙◌, List, [], ◌∷◌, ◌++◌, arith, length, drop, keep_if, expire, fresh, From, last_at,
  From-append, expire-push, expire-later,
}
use mathlib.Core.List.{append-nil, append_assoc}
use i_pulse.Traffic.Window.{
  totals_of, Entry, entry_at, Accumulator, Occurrences, new_accumulator, add, totals, sum_rx,
  sum_tx, not_negative, new_occurrences, record_at,
}

-- A sample: its instant and the bytes received and sent since the one before.
abbrev pub Sample : Type 0
Sample = ℕ × ℤ × ℤ

abbrev pub entry_of : Sample → Entry
entry_of (at, rx, tx) = record { at = at; rx = not_negative rx; tx = not_negative tx }

abbrev pub entries_of : List Sample → List Entry
entries_of [] = []
entries_of (s ∷ ss) = entry_of s ∷ entries_of ss

pub add_all : Accumulator → List Sample → Accumulator
add_all w [] = w
add_all w ((at, rx, tx) ∷ ss) = add_all (add w at rx tx) ss

-- The window holds what is fresh of a history that ends at t.
abbrev Holds : Accumulator → List Entry → ℕ → Type 0
Holds w h t =
    (w.entries ≡ keep_if (fresh entry_at w.window t) h)
    × From entry_at 0 h
    × (last_at entry_at 0 h ≤ t)

add-Holds :
    (w : Accumulator) (h : List Entry) (t : ℕ) (s : Sample)
    → Holds w h t
    → t ≤ s.0
    → Holds (add w s.0 s.1 s.2) (h ++ entry_of s ∷ []) s.0
unfolding add
add-Holds w h t s (held, sorted, ends) le =
    let all = From-append entry_at 0 h (entry_of s) sorted (omega arith) in
    (
      rw held (expire-push entry_at w.window t h (entry_of s) sorted ends le),
      all.0,
      omega (arith, all.1),
    )

-- Samples in order of time, none before an instant.
abbrev pub InOrder : ℕ → List Sample → Type 0
InOrder t [] = Unit
InOrder t (s ∷ ss) = (t ≤ s.0) × InOrder s.0 ss

abbrev pub end_of : ℕ → List Sample → ℕ
end_of t [] = t
end_of t (s ∷ ss) = end_of s.0 ss

add_all-Holds :
    (w : Accumulator) (h : List Entry) (t : ℕ) (ss : List Sample)
    → Holds w h t
    → InOrder t ss
    → Holds (add_all w ss) (h ++ entries_of ss) (end_of t ss)
unfolding add_all
add_all-Holds w h t [] held order = rw append-nil held
add_all-Holds w h t (s ∷ ss) held order = rw (← append_assoc h (entry_of s ∷ []) (entries_of ss)) (
    add_all-Holds (add w s.0 s.1 s.2) (h ++ entry_of s ∷ []) s.0 ss (add-Holds w h t s held order.0)
      order.1)

window-add_all : (w : Accumulator) (ss : List Sample) → (add_all w ss).window ≡ w.window
unfolding add_all add
window-add_all w [] = refl
window-add_all w (s ∷ ss) = window-add_all (add w s.0 s.1 s.2) ss

totals_of-sums :
    (es : List Entry) (now : ℕ)
    → ((totals_of es now).rx ≡ sum_rx es) × ((totals_of es now).tx ≡ sum_tx es)
unfolding totals_of sum_rx sum_tx
totals_of-sums [] now = (refl, refl)
totals_of-sums (e ∷ es) now = (refl, refl)

-- Trimming as it goes loses nothing: after any samples in order of time, the totals of a new
-- accumulator at a later instant are the sums over exactly those samples of the whole history
-- that are not older than the window, negative counts taken for 0.
pub totals-add_all :
    (width : ℤ) (ss : List Sample) (now : ℕ)
    → InOrder 0 ss
    → end_of 0 ss ≤ now
    → let w = new_accumulator width in
      let inside = keep_if (fresh entry_at w.window now) (entries_of ss) in
      ((totals (add_all w ss) now).1.rx ≡ sum_rx inside)
      × ((totals (add_all w ss) now).1.tx ≡ sum_tx inside)
unfolding totals new_accumulator
totals-add_all width ss now order le =
    let w = new_accumulator width in
    let held = add_all-Holds w [] 0 ss (refl, tt, omega arith) order in
    let same = window-add_all w ss in
    let inside =
      ap (expire entry_at (add_all w ss).window now) held.0
      ∙ expire-later entry_at (add_all w ss).window (end_of 0 ss) now (entries_of ss) held.1 le
      ∙ ap (λ k. keep_if (fresh entry_at k now) (entries_of ss)) same in
    let sums =
      totals_of-sums (expire entry_at (add_all w ss).window now (add_all w ss).entries) now in
    (sums.0 ∙ ap sum_rx inside, sums.1 ∙ ap sum_tx inside)

pub record_all : Occurrences → List ℕ → Occurrences
record_all p [] = p
record_all p (at ∷ ts) = record_all (record_at p at) ts

record_at-max : (p : Occurrences) (at : ℕ) → (record_at p at).max ≡ p.max
unfolding record_at
record_at-max p at = ground arith

if-times :
    (p : Occurrences) (l : List ℕ)
    → (if ltb p.max (length l)
        then record p { times = drop (length l - p.max) l }
        else record p { times = l }).times
      ≡ (if ltb p.max (length l) then drop (length l - p.max) l else l)
if-times p l = ground arith

record_at-last_of :
    (p : Occurrences) (h : List ℕ) (at : ℕ)
    → p.times ≡ last_of p.max h
    → (record_at p at).times ≡ last_of p.max (h ++ at ∷ [])
unfolding record_at
record_at-last_of p h at held =
    if-times p (p.times ++ at ∷ [])
    ∙ cut-last_of p.max (p.times ++ at ∷ [])
    ∙ ap (λ l. last_of p.max (l ++ at ∷ [])) held
    ∙ last_of-push p.max h at

record_all-last_of :
    (p : Occurrences) (h ts : List ℕ)
    → p.times ≡ last_of p.max h
    → (record_all p ts).times ≡ last_of p.max (h ++ ts)
unfolding record_all
record_all-last_of p h [] held = rw append-nil held
record_all-last_of p h (at ∷ ts) held =
    record_all-last_of (record_at p at) (h ++ at ∷ []) ts (
      record_at-last_of p h at held ∙ ap (λ m. last_of m (h ++ at ∷ [])) (sym (record_at-max p at)))
    ∙ ap (λ m. last_of m ((h ++ at ∷ []) ++ ts)) (record_at-max p at)
    ∙ ap (last_of p.max) (append_assoc h (at ∷ []) ts)

-- The period detector retains exactly the most recent occurrences, in their order, as many as its
-- maximum, which is 12 if less than 4 was asked for.
pub times-record_all :
    (n : ℤ) (ts : List ℕ)
    → ((record_all (new_occurrences n) ts).times ≡ last_of (new_occurrences n).max ts)
      × (4 ≤ (new_occurrences n).max)
unfolding new_occurrences
times-record_all n ts = (
  record_all-last_of (new_occurrences n) [] ts (sym (drop-nil (0 - (new_occurrences n).max))),
  ground arith,
)
