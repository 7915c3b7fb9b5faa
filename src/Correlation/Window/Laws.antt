-- ===== src/Correlation/Window/Laws.antt =====
-- internal/correlation/window.go: what the window holds after any signals.
use mathlib.Core.Path.{ap₂}
use mathlib.Core.List.{append_assoc, append-nil}
use i_pulse.Base.{
  ℕ, ℤ, ◌≤◌, ◌≡◌, refl, ap, ◌∙◌, List, [], ◌∷◌, ◌++◌, arith, keep_if, expire, fresh, From, last_at,
  From-append, last_of, cut-last_of, recent-push, recent-later,
}
use i_pulse.Correlation.Window.{Signal, Window, signal_at, new_window, add, snapshot, stamped}

module _ {F : Type 0} where
  -- Signals as they arrive, each with the clock's instant.
  pub add_all : Window F → List (ℕ × Signal F) → Window F
  add_all w [] = w
  add_all w ((now, s) ∷ ss) = add_all (add w now s) ss

  -- The signals as they are stored.
  abbrev pub stored : List (ℕ × Signal F) → List (Signal F)
  stored [] = []
  stored ((now, s) ∷ ss) = stamped now s ∷ stored ss

  -- In order of time, none before an instant.
  abbrev pub InOrder : ℕ → List (Signal F) → Type 0
  InOrder t l = From signal_at t l

  abbrev Holds : Window F → List (Signal F) → ℕ → Type 0
  Holds w h t =
      (w.signals ≡ last_of w.max (keep_if (fresh signal_at w.duration t) h))
      × From signal_at 0 h
      × (last_at signal_at 0 h ≤ t)

  add-config :
      (w : Window F) (now : ℕ) (s : Signal F)
      → ((add w now s).max ≡ w.max) × ((add w now s).duration ≡ w.duration)
  unfolding add
  add-config w now s = (refl, refl)

  add-Holds :
      (w : Window F) (h : List (Signal F)) (t now : ℕ) (s : Signal F)
      → Holds w h t
      → t ≤ (stamped now s).time
      → Holds (add w now s) (h ++ stamped now s ∷ []) (stamped now s).time
  unfolding add
  add-Holds w h t now s (held, sorted, ends) le =
      let x = stamped now s in
      let all = From-append signal_at 0 h x sorted (omega arith) in
      (
        cut-last_of w.max (expire signal_at w.duration x.time (w.signals ++ x ∷ []))
            ∙ ap (λ l. last_of w.max (expire signal_at w.duration x.time (l ++ x ∷ []))) held
            ∙ recent-push signal_at w.duration w.max t h x sorted ends le,
        all.0,
        omega (arith, all.1),
      )

  add_all-Holds :
      (w : Window F) (h : List (Signal F)) (t : ℕ) (ss : List (ℕ × Signal F))
      → Holds w h t
      → InOrder t (stored ss)
      → Holds (add_all w ss) (h ++ stored ss) (last_at signal_at t (stored ss))
  unfolding add_all
  add_all-Holds w h t [] held order = rw append-nil held
  add_all-Holds w h t ((now, s) ∷ ss) held order =
      rw (← append_assoc h (stamped now s ∷ []) (stored ss)) (
        add_all-Holds (add w now s) (h ++ stamped now s ∷ []) (stamped now s).time ss
          (add-Holds w h t now s held order.0) order.1)

  add_all-config :
      (w : Window F) (ss : List (ℕ × Signal F))
      → ((add_all w ss).max ≡ w.max) × ((add_all w ss).duration ≡ w.duration)
  unfolding add_all
  add_all-config w [] = (refl, refl)
  add_all-config w ((now, s) ∷ ss) =
      let rest = add_all-config (add w now s) ss in
      let one = add-config w now s in (rest.0 ∙ one.0, rest.1 ∙ one.1)

  new_window-Holds : (d : ℤ) → Holds (new_window d) [] 0
  unfolding new_window
  new_window-Holds d = (refl, tt, omega arith)

  -- The window is exactly the recent past: after any signals in order of time, a snapshot at a
  -- later instant of what was a new window is the last 4096 of those signals of the whole history
  -- that are not older than the window's duration, in their order.
  pub snapshot-add_all :
      (d : ℤ) (ss : List (ℕ × Signal F)) (now : ℕ)
      → InOrder 0 (stored ss)
      → last_at signal_at 0 (stored ss) ≤ now
      → let w : Window F = new_window d in
        (snapshot (add_all w ss) now).1
        ≡ last_of 4096 (keep_if (fresh signal_at w.duration now) (stored ss))
  unfolding snapshot new_window
  snapshot-add_all d ss now order le =
      let w : Window F = new_window d in
      let held = add_all-Holds w [] 0 ss (new_window-Holds d) order in
      let v = add_all w ss in
      let config = add_all-config w ss in
      cut-last_of v.max (expire signal_at v.duration now v.signals)
      ∙ ap (λ l. last_of v.max (expire signal_at v.duration now l)) held.0
      ∙ recent-later signal_at v.duration v.max (last_at signal_at 0 (stored ss)) now (stored ss)
          held.1 le
      ∙ ap₂ (λ m k. last_of m (keep_if (fresh signal_at k now) (stored ss))) config.0 config.1
