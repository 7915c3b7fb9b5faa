-- ===== src/Correlation/View.antt =====
-- internal/correlation/window.go: `View`, the indexed evaluation context. `upper` is
-- `strings.ToUpper`. `EventsWithCodes` sorts by time with `sort.Slice`, which leaves the order of
-- signals of one instant open: the sort here keeps them as they came.
pub mod Index
pub mod Ids
use i_pulse.Base.{
  ℕ, ℤ, pos, leb_ℤ, Bool, true, false, ◌&&◌, List, [], ◌∷◌, ◌++◌, String, Option, none, some, ltb,
  leb, if◌then◌else◌, length, get, put, Eq, nat_eq, string_eq,
}
use i_pulse.Correlation.Window.{Signal, SignalKind, event, sample}

module _ (F : Type 0) where
  pub record View : Type 0 where
    pub now : ℕ
    pub signals : List (Signal F)
    pub by_event_code : List (ℕ × List (Signal F))
    pub by_event_name : List (String × List (Signal F))
    pub samples : List (String × List (Signal F))

-- `m[k] = append(m[k], v)`, where a missing key has the empty slice.
abbrev pub or_nil {ℓ} : {A : Type ℓ} → Option (List A) → List A
or_nil none = []
or_nil (some l) = l

module _ {ℓ κ} {K : Type ℓ} {V : Type κ} ⦃e : Eq K⦄ where
  unfoldable pub append_at : K → V → List (K × List V) → List (K × List V)
  append_at k v m = put k (or_nil (get k m) ++ v ∷ []) m

unfoldable pub eq_ℤ : ℤ → ℤ → Bool
eq_ℤ a b = leb_ℤ a b && leb_ℤ b a

unfoldable pub mem_id : ℤ → List ℤ → Bool
mem_id i [] = false
mem_id i (j ∷ js) = let rest = mem_id i js in if eq_ℤ i j then true else rest

abbrev pub value_of : {F : Type 0} → Option (Signal F) → Option F
value_of none = none
value_of (some s) = some s.value

abbrev pub last? {ℓ} : {A : Type ℓ} → List A → Option A
last? [] = none
last? (x ∷ []) = some x
last? (x ∷ y ∷ l) = last? (y ∷ l)

module _ {F : Type 0} (upper : String → String) where
  index_signal : SignalKind → Signal F → View F → View F
  index_signal event s v = record v {
    by_event_code = append_at s.code s v.by_event_code;
    by_event_name = append_at (upper s.name) s v.by_event_name;
  }
  index_signal sample s v = record v { samples = append_at s.name s v.samples }

  index_all : List (Signal F) → View F → View F
  unfolding index_signal
  index_all [] v = v
  index_all (s ∷ ss) v = index_all ss (index_signal s.kind s v)

  unfoldable pub new_view : ℕ → List (Signal F) → View F
  unfolding index_all
  new_view now signals = index_all signals (record {
    now = now;
    signals = signals;
    by_event_code = [];
    by_event_name = [];
    samples = [];
  })

module _ {F : Type 0} where
  -- `v.byEventCode[code]`
  unfoldable pub events_of : View F → ℕ → List (Signal F)
  events_of v code = or_nil (get code v.by_event_code)

  unfoldable pub has_event : View F → ℕ → Bool
  has_event v code = ltb 0 (length (events_of v code))

  unfoldable pub has_any_event : View F → List ℕ → Bool
  has_any_event v [] = false
  has_any_event v (c ∷ cs) = let rest = has_any_event v cs in if has_event v c then true else rest

  -- `Event`
  unfoldable pub event_of : View F → ℕ → Option (Signal F)
  event_of v code = last? (events_of v code)

  unfoldable pub count_event : View F → ℕ → ℕ
  count_event v code = length (events_of v code)

  concat_codes : View F → List ℕ → List (Signal F)
  concat_codes v [] = []
  concat_codes v (c ∷ cs) = events_of v c ++ concat_codes v cs

  insert_by_time : Signal F → List (Signal F) → List (Signal F)
  insert_by_time s [] = s ∷ []
  insert_by_time s (t ∷ l) =
      let rest = insert_by_time s l in if leb s.time t.time then s ∷ t ∷ l else t ∷ rest

  sort_by_time : List (Signal F) → List (Signal F)
  sort_by_time [] = []
  sort_by_time (s ∷ l) = insert_by_time s (sort_by_time l)

  -- `EventsWithCodes`
  unfoldable pub events_with_codes : View F → List ℕ → List (Signal F)
  unfolding concat_codes insert_by_time sort_by_time
  events_with_codes v codes = sort_by_time (concat_codes v codes)

  -- The most recent value of a metric.
  unfoldable pub latest : View F → String → Option F
  latest v metric = value_of (last? (or_nil (get metric v.samples)))

  -- The loop of `EventIDs`; the ids that were output are the ones that were seen.
  collect_ids : List ℤ → List (Signal F) → List ℤ
  collect_ids out [] = out
  collect_ids out (s ∷ l) =
      collect_ids
        (if eq_ℤ s.event_id (pos 0)
          then out
          else if mem_id s.event_id out
          then out
          else out ++ s.event_id ∷ [])
        l

  -- `EventIDs`
  unfoldable pub event_ids : View F → List ℕ → List ℤ
  unfolding collect_ids mem_id eq_ℤ
  event_ids v codes = collect_ids [] (events_with_codes v codes)
