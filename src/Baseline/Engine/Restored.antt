-- ===== src/Baseline/Engine/Restored.antt =====
-- internal/baseline/engine.go: the dirty baselines, written to the database and restored from it.
use i_pulse.Base.{
  ℤ, pos, pos_part, leb_ℤ, ltb_ℤ, ◌≡◌, ◌≢◌, refl, ap, sym, ◌∙◌, Bool, true, false, List, [], ◌∷◌,
  String, Option, none, some, arith, inl, inr, Bool-cases, drop-nil, any, ◌-◌, ◌||◌, Option-cases,
  ◌==◌, if◌then◌else◌, length, last_of, Floats, All, get, put, get-put, string_eq,
}
use i_pulse.Baseline.Engine.{Key, Baseline, Config, Engine, new_engine, normalised, key_eq}
use i_pulse.Baseline.Engine.Held.{cut-newest}
use i_pulse.Baseline.Engine.Folding.{normalised-window}
use i_pulse.Baseline.Engine.Storage.{
  Json, Row, row_of, rows_of, insert_row, row_less, sort_rows, take_dirty, restored, load, remade,
  or_blank,
}

module _ {F : Type 0} ⦃fl : Floats F⦄ (json : Json F) where
  -- What the code relies on of encoding/json: a window that is written is read back, and no text of a
  -- window is empty.
  pub record ReadsBack (window : List F) : Type 0 where
    pub text : String
    pub written : json.encode window ≡ some text
    pub not_empty : text ≢ ""
    pub read : json.decode text ≡ some window

  -- What a restart with a configuration makes of a baseline.
  abbrev pub restarted : Config F → Baseline F → Baseline F
  restarted cfg b = record b {
    established = leb_ℤ cfg.min_observations (pos b.samples);
    window = last_of (pos_part cfg.window_size) b.window;
  }

  -- `Load` without the panic that a negative window size would cause.
  abbrev newest_from : ℤ → Option (List F) → List F
  newest_from size none = []
  newest_from size (some window) = last_of (pos_part size) window

  abbrev window_of : Config F → Row F → List F
  window_of cfg r =
      if string_eq.beq r.window "" then [] else newest_from cfg.window_size (json.decode r.window)

  abbrev rebuilt : Config F → Row F → Baseline F
  rebuilt cfg r = remade json cfg r (window_of cfg r)

  load_all : Engine F → List (Row F) → Engine F
  load_all e [] = e
  load_all e (r ∷ rows) =
      let b = rebuilt e.cfg r in load_all (record e { baselines = put b.key b e.baselines }) rows

  restored-rebuilt :
      (cfg : Config F) (r : Row F)
      → ltb_ℤ (pos 0) cfg.window_size ≡ true
      → restored json cfg r ≡ some (rebuilt cfg r)
  unfolding restored
  restored-rebuilt cfg r wide = elim (Bool-cases (string_eq.beq r.window "")) [
    | inl blank ↦ rw blank refl
    | inr full ↦ elim (Option-cases (json.decode r.window)) [
      | inl unread ↦ rw (full, unread) refl
      | inr (window, read) ↦ rw (full, read, cut-newest cfg.window_size window wide) refl
    ]
  ]

  load-load_all :
      (e : Engine F) (rows : List (Row F))
      → ltb_ℤ (pos 0) e.cfg.window_size ≡ true
      → load json e rows ≡ some (load_all e rows)
  unfolding load load_all
  load-load_all e [] wide = refl
  load-load_all e (r ∷ rows) wide =
      let b = rebuilt e.cfg r in
      rw (restored-rebuilt e.cfg r wide)
        (load-load_all (record e { baselines = put b.key b e.baselines }) rows wide)

  window_back :
      (size : ℤ) (window : List F)
      → ReadsBack window
      → let text = if length window == 0 then "" else or_blank (json.encode window) in
        (if string_eq.beq text "" then [] else newest_from size (json.decode text))
        ≡ last_of (pos_part size) window
  window_back size [] w = sym (drop-nil (0 - pos_part size))
  window_back size (x ∷ xs) w =
      let filled : (length (x ∷ xs) == 0) ≡ false = ground arith in
      let full : string_eq.beq w.text "" ≡ false = elim (Bool-cases (string_eq.beq w.text "")) [
        | inl blank ↦ absurd (w.not_empty ((string_eq.beq_iff w.text "").0 blank))
        | inr full ↦ full
      ] in
      rw (filled, w.written, full, w.read) refl

  restored-row_of :
      (cfg : Config F) (b : Baseline F)
      → ReadsBack b.window
      → rebuilt cfg (row_of json b) ≡ restarted cfg b
  unfolding row_of
  restored-row_of cfg b w =
      ap
        (λ window. record b {
          established = leb_ℤ cfg.min_observations (pos b.samples);
          window = window;
        })
        (window_back cfg.window_size b.window w)

  key_of_row : Row F → Key
  key_of_row r = record { metric = r.metric; dimension = r.dimension; bucket = r.bucket }

  abbrev row_for : Key → Row F → Bool
  row_for k r = key_eq.beq (key_of_row r) k

  -- Rows of which those of a key all restore the same baseline.
  abbrev Agree : Config F → Key → Baseline F → List (Row F) → Type 0
  Agree cfg k b rows = All (λ r. row_for k r ≡ true → rebuilt cfg r ≡ b) rows

  choose :
      (s more : Bool) (b c : Baseline F) (o : Option (Baseline F))
      → (s ≡ true → c ≡ b)
      → (if more then some b else if s then some c else o) ≡ (if s || more then some b else o)
  choose true true b c o h = refl
  choose true false b c o h = ap some (h refl)
  choose false true b c o h = refl
  choose false false b c o h = refl

  get-load :
      (e : Engine F) (k : Key) (b : Baseline F) (rows : List (Row F))
      → Agree e.cfg k b rows
      → get k (load_all e rows).baselines
        ≡ (if any (row_for k) rows then some b else get k e.baselines)
  unfolding load_all key_of_row
  get-load e k b [] h = refl
  get-load e k b (r ∷ rows) (first, h) =
      let c = rebuilt e.cfg r in
      let rest = get-load (record e { baselines = put c.key c e.baselines }) k b rows h in
      rest
      ∙ ap (λ o. if any (row_for k) rows then some b else o) (get-put c.key k c e.baselines)
      ∙ choose (row_for k r) (any (row_for k) rows) b c (get k e.baselines) first

  any-insert_row :
      (p : Row F → Bool) (r : Row F) (rows : List (Row F))
      → any p (insert_row json r rows) ≡ (p r || any p rows)
  unfolding insert_row
  any-insert_row p r [] = refl
  any-insert_row p r (q ∷ rows) = ground (arith, any-insert_row p r rows)

  any-sort_rows :
      (p : Row F → Bool) (rows : List (Row F)) → any p (sort_rows json rows) ≡ any p rows
  unfolding sort_rows
  any-sort_rows p [] = refl
  any-sort_rows p (r ∷ rows) =
      any-insert_row p r (sort_rows json rows) ∙ ap (λ b. p r || b) (any-sort_rows p rows)

  All-insert_row :
      (P : Row F → Type 0) (r : Row F) (rows : List (Row F))
      → P r
      → All P rows
      → All P (insert_row json r rows)
  unfolding insert_row
  All-insert_row P r [] h hs = (h, tt)
  All-insert_row P r (q ∷ rows) h (hq, hs) = elim (Bool-cases (row_less json q r)) [
    | inl later ↦ rw later (hq, All-insert_row P r rows h hs)
    | inr here ↦ rw here (h, (hq, hs))
  ]

  All-sort_rows :
      (P : Row F → Type 0) (rows : List (Row F)) → All P rows → All P (sort_rows json rows)
  unfolding sort_rows
  All-sort_rows P [] h = h
  All-sort_rows P (r ∷ rows) (h, hs) =
      All-insert_row P r (sort_rows json rows) h (All-sort_rows P rows hs)

  -- An engine holds each baseline under its own key, with a window that reads back.
  unfoldable pub IsStorable : List (Key × Baseline F) → Type 0
  IsStorable held =
      (k : Key) (b : Baseline F) → get k held ≡ some b → (b.key ≡ k) × ReadsBack b.window

  abbrev pub is_dirty : Option Bool → Bool
  is_dirty none = false
  is_dirty (some d) = true

  -- The row of a held baseline is for its key alone.
  row_of-for : (j k : Key) (c : Baseline F) → c.key ≡ j → row_for k (row_of json c) ≡ key_eq.beq j k
  unfolding row_of key_of_row
  row_of-for j k c named = ap (λ i. key_eq.beq i k) named

  rows-Agree :
      (cfg : Config F) (k : Key) (b : Baseline F) (held : List (Key × Baseline F))
      (dirty : List (Key × Bool))
      → IsStorable held
      → get k held ≡ some b
      → Agree cfg k (restarted cfg b) (rows_of json held dirty)
        × (any (row_for k) (rows_of json held dirty) ≡ is_dirty (get k dirty))
  unfolding rows_of get IsStorable
  rows-Agree cfg k b held [] sound found = (tt, refl)
  rows-Agree cfg k b held ((j, d) ∷ rest) sound found =
      let (agree, among) = rows-Agree cfg k b held rest sound found in
      elim (Bool-cases (key_eq.beq j k)) [
        | inl same ↦
            let at_j : get j held ≡ some b =
              ap (λ i. get i held) ((key_eq.beq_iff j k).0 same) ∙ found in
            let (named, back) = sound k b found in
            let for_k : row_for k (row_of json b) ≡ true =
              row_of-for k k b named ∙ (key_eq.beq_iff k k).1 refl in
            rw (at_j, same) ((λ t. restored-row_of cfg b back, agree), rw for_k refl)
        | inr other ↦ elim (Option-cases (get j held)) [
          | inl missing ↦ rw (missing, other) (agree, among)
          | inr (c, at_j) ↦
              let not_k : row_for k (row_of json c) ≡ false =
                row_of-for j k c (sound j c at_j).0 ∙ other in
              rw (at_j, other) ((λ t. absurd (cc (sym not_k ∙ t)), agree), rw not_k among)
        ]
      ]

  -- What is written to the database of the dirty baselines, and loaded into a new engine, is there again:
  -- provided that every baseline is held under its own key and its window is read back from its text, a
  -- dirty baseline has after the restart everything that it had, except that its window is cut to the new
  -- size and whether it is established is derived anew from its samples and the new minimum; a baseline
  -- that was not dirty is not there; and no slice is read out of range.
  pub get-load-take_dirty :
      (e : Engine F) (cfg : Config F) (k : Key) (b : Baseline F)
      → IsStorable e.baselines
      → get k e.baselines ≡ some b
      → (after : Engine F) × (load json (new_engine cfg) (take_dirty json e).1 ≡ some after)
        × (get k after.baselines
            ≡ (if is_dirty (get k e.dirty) then some (restarted (normalised cfg) b) else none))
  unfolding take_dirty new_engine get
  get-load-take_dirty e cfg k b sound found =
      let (agree, among) = rows-Agree (normalised cfg) k b e.baselines e.dirty sound found in
      let rows = rows_of json e.baselines e.dirty in
      let c = restarted (normalised cfg) b in
      let sorted = sort_rows json rows in
      (
        load_all (new_engine cfg) sorted,
        load-load_all (new_engine cfg) sorted (normalised-window cfg),
        get-load (new_engine cfg) k c sorted (All-sort_rows _ rows agree)
            ∙ ap (λ t. if t then some c else none) (any-sort_rows (row_for k) rows ∙ among),
      )
