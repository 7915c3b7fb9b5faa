-- ===== src/Correlation/View/Index.antt =====
-- internal/correlation/window.go: what `NewView` puts under each key of the view's maps.
use i_pulse.Base.{
  ℕ, ◌≡◌, refl, ap, sym, ◌∙◌, Bool, true, false, List, [], ◌∷◌, ◌++◌, String, ◌==◌, keep_if,
  if◌then◌else◌, get, get-put, Eq, nat_eq, string_eq, Bool-cases, inl, inr, ◌&&◌,
}
use mathlib.Core.List.{append-nil, append_assoc}
use i_pulse.Correlation.Window.{Signal, SignalKind, event, sample, is_event}
use i_pulse.Correlation.View.{
  View, or_nil, append_at, index_signal, index_all, new_view, events_of, latest, last?, value_of,
}

module _ {ℓ κ} {K : Type ℓ} {V : Type κ} ⦃e : Eq K⦄ where
  get-append_at :
      (k j : K) (v : V) (m : List (K × List V))
      → or_nil (get j (append_at k v m))
        ≡ (if e.beq k j then or_nil (get j m) ++ v ∷ [] else or_nil (get j m))
  unfolding append_at
  get-append_at k j v m = elim (Bool-cases (e.beq k j)) [
    | inl same ↦ rw (get-put k j (or_nil (get k m) ++ v ∷ []) m, same, (e.beq_iff k j).0 same)
    | inr other ↦ rw (get-put k j (or_nil (get k m) ++ v ∷ []) m, other)
  ]

abbrev pub is_sample : SignalKind → Bool
is_sample event = false
is_sample sample = true

module _ {F : Type 0} where
  -- The events under a code, and the samples of a metric, by a search of the signals.
  abbrev pub coded : ℕ → Signal F → Bool
  coded code s = is_event s.kind && s.code == code

  abbrev pub measures : String → Signal F → Bool
  measures metric s = is_sample s.kind && string_eq.beq s.name metric

  abbrev one_if : Bool → Signal F → List (Signal F)
  one_if b s = if b then s ∷ [] else []

  if-append :
      (b : Bool) (l : List (Signal F)) (s : Signal F)
      → (if b then l ++ s ∷ [] else l) ≡ l ++ one_if b s
  if-append true l s = refl
  if-append false l s = sym (append-nil l)

  one_if-keep_if :
      (p : Signal F → Bool) (s : Signal F) (l : List (Signal F))
      → one_if (p s) s ++ keep_if p l ≡ keep_if p (s ∷ l)
  one_if-keep_if p s l = elim (Bool-cases (p s)) [ inl h ↦ rw h | inr h ↦ rw h ]

  module _ (upper : String → String) where
    index_events :
        (code : ℕ) (k : SignalKind) (s : Signal F) (v : View F)
        → or_nil (get code (index_signal upper k s v).by_event_code)
          ≡ or_nil (get code v.by_event_code) ++ one_if (is_event k && s.code == code) s
    unfolding index_signal
    index_events code event s v =
        get-append_at s.code code s v.by_event_code
        ∙ if-append (s.code == code) (or_nil (get code v.by_event_code)) s
    index_events code sample s v = sym (append-nil _)

    index_samples :
        (metric : String) (k : SignalKind) (s : Signal F) (v : View F)
        → or_nil (get metric (index_signal upper k s v).samples)
          ≡ or_nil (get metric v.samples) ++ one_if (is_sample k && string_eq.beq s.name metric) s
    unfolding index_signal
    index_samples metric sample s v =
        get-append_at s.name metric s v.samples
        ∙ if-append (string_eq.beq s.name metric) (or_nil (get metric v.samples)) s
    index_samples metric event s v = sym (append-nil _)

    index_all_events :
        (code : ℕ) (l : List (Signal F)) (v : View F)
        → or_nil (get code (index_all upper l v).by_event_code)
          ≡ or_nil (get code v.by_event_code) ++ keep_if (coded code) l
    unfolding index_all
    index_all_events code [] v = sym (append-nil _)
    index_all_events code (s ∷ l) v =
        index_all_events code l (index_signal upper s.kind s v)
        ∙ ap (λ m. m ++ keep_if (coded code) l) (index_events code s.kind s v)
        ∙ append_assoc (or_nil (get code v.by_event_code)) (one_if (coded code s) s)
            (keep_if (coded code) l)
        ∙ ap (◌++◌ (or_nil (get code v.by_event_code))) (one_if-keep_if (coded code) s l)

    index_all_samples :
        (metric : String) (l : List (Signal F)) (v : View F)
        → or_nil (get metric (index_all upper l v).samples)
          ≡ or_nil (get metric v.samples) ++ keep_if (measures metric) l
    unfolding index_all
    index_all_samples metric [] v = sym (append-nil _)
    index_all_samples metric (s ∷ l) v =
        index_all_samples metric l (index_signal upper s.kind s v)
        ∙ ap (λ m. m ++ keep_if (measures metric) l) (index_samples metric s.kind s v)
        ∙ append_assoc (or_nil (get metric v.samples)) (one_if (measures metric s) s)
            (keep_if (measures metric) l)
        ∙ ap (◌++◌ (or_nil (get metric v.samples))) (one_if-keep_if (measures metric) s l)

    -- The indexed view answers as a search of its signals would: under a code it has exactly the
    -- event signals with that code, in their order, and the latest value of a metric is that of the
    -- last sample signal with the metric's name.
    pub new_view_indexed :
        (now : ℕ) (l : List (Signal F)) (code : ℕ) (metric : String)
        → (events_of (new_view upper now l) code ≡ keep_if (coded code) l)
          × (latest (new_view upper now l) metric ≡ value_of (last? (keep_if (measures metric) l)))
    unfolding events_of latest new_view get
    new_view_indexed now l code metric =
        (index_all_events code l _, ap (λ m. value_of (last? m)) (index_all_samples metric l _))
