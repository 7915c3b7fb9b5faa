-- ===== src/Correlation/Engine.antt =====
-- internal/correlation/engine.go and the types of rules.go. A rule's conditions and its extra fields
-- are functions of the view. `Evaluate` is one step: the locks around its parts guard fields that
-- only it and `SetEnabled` write.
pub mod First
pub mod Calls
pub mod Cooldown
use i_pulse.Base.{
  ℕ, ℤ, pos, leb_ℤ, sub_ℕ, Bool, true, false, not, ◌&&◌, List, [], ◌∷◌, String, Option, none, some,
  ◌==◌, if◌then◌else◌, get, put, nat_eq, string_eq,
}
use i_pulse.Correlation.Window.{Signal, is_event, Window, new_window, add, snapshot}
use i_pulse.Correlation.View.{View, new_view, event_ids}

module _ (F : Type 0) where
  -- `Match` answers `none` if the condition fails, and the detail if it holds.
  pub record Condition : Type 0 where
    pub name : String
    pub match : View F → Option String

  pub record Rule : Type 0 where
    pub name : String
    pub conclusion : ℕ
    pub cause : String
    pub requires : List Condition
    pub suppresses : List ℕ
    pub fields : Option (View F → List (String × String))
    pub cooldown : ℤ

  pub record Match : Type 0 where
    pub rule : Rule
    pub time : ℕ
    pub cause : String
    pub evidence : List String
    pub suppress_id : List ℤ
    pub fields : Option (List (String × String))

  pub record Engine : Type 0 where
    pub window : Window F
    pub rules : List Rule
    pub last_fired : List (String × ℕ)
    pub conclusions : List ℕ
    pub enabled : Bool

-- `e.conclusions[code]`
unfoldable pub mem_code : ℕ → List ℕ → Bool
mem_code c [] = false
mem_code c (d ∷ ds) = let rest = mem_code c ds in if d == c then true else rest

abbrev pub elapsed : ℤ → ℕ → Option ℕ → Bool
elapsed cooldown now none = true
elapsed cooldown now (some last) = leb_ℤ cooldown (sub_ℕ now last)

abbrev pub detail_or_name : String → String → String
detail_or_name name detail = if string_eq.beq detail "" then name else detail

module _ {F : Type 0} where
  conclusions_of : List (Rule F) → List ℕ
  conclusions_of [] = []
  conclusions_of (r ∷ rs) = r.conclusion ∷ conclusions_of rs

  unfoldable pub new_engine : ℤ → List (Rule F) → Engine F
  unfolding conclusions_of
  new_engine window rules = record {
    window = new_window window;
    rules = rules;
    last_fired = [];
    conclusions = conclusions_of rules;
    enabled = true;
  }

  unfoldable pub set_enabled : Engine F → Bool → Engine F
  set_enabled e v = record e { enabled = v }

  unfoldable pub observe : Engine F → ℕ → Signal F → Engine F
  observe e now s =
      if is_event s.kind && mem_code s.code e.conclusions
      then e
      else record e { window = add e.window now s }

  unfoldable pub cooldown_elapsed : Engine F → Rule F → ℕ → Bool
  cooldown_elapsed e r now =
      if leb_ℤ r.cooldown (pos 0) then true else elapsed r.cooldown now (get r.name e.last_fired)

  -- The inner loop of `Evaluate`: the details in order, or `none` at the first failing condition.
  unfoldable pub gather : View F → List (Condition F) → Option (List String)
  gather v [] = some []
  gather v (c ∷ cs) =
      let rest = gather v cs in
      elim (c.match v) [
        | none ↦ none
        | some detail ↦ elim rest [ none ↦ none | some l ↦ some (detail_or_name c.name detail ∷ l) ]
      ]

  abbrev apply_fields :
      Option (View F → List (String × String)) → View F → Option (List (String × String))
  apply_fields none v = none
  apply_fields (some f) v = some (f v)

  unfoldable pub match_of : View F → ℕ → Rule F → List String → Match F
  match_of v now r evidence = record {
    rule = r;
    time = now;
    cause = r.cause;
    evidence = evidence;
    suppress_id = event_ids v r.suppresses;
    fields = apply_fields r.fields v;
  }

  -- The outer loop of `Evaluate`: the first rule that is past its cooldown and satisfied.
  unfoldable pub first_match : Engine F → View F → ℕ → List (Rule F) → Option (Match F)
  unfolding match_of
  first_match e v now [] = none
  first_match e v now (r ∷ rs) =
      let rest = first_match e v now rs in
      if cooldown_elapsed e r now
      then elim (gather v r.requires) [
        | none ↦ rest
        | some evidence ↦ some (match_of v now r evidence)
      ]
      else rest

  abbrev pub mark_fired : Engine F → ℕ → Option (Match F) → Engine F
  mark_fired e now none = e
  mark_fired e now (some m) = record e { last_fired = put m.rule.name now e.last_fired }

  -- `upper` is `strings.ToUpper`, by which the view spells the names of events.
  unfoldable pub evaluate : (String → String) → Engine F → ℕ → Engine F × Option (Match F)
  evaluate upper e now =
      if not e.enabled
      then (e, none)
      else let (w, signals) = snapshot e.window now in
        let found = first_match e (new_view upper now signals) now e.rules in
        (mark_fired (record e { window = w }) now found, found)
