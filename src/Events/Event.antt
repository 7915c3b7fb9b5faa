-- ===== src/Events/Event.antt =====
-- internal/events/event.go: the events that are built from the catalog. `decimal` is `strconv.Itoa`.
-- Fields are key-value pairs, already rendered.
pub mod Build
use i_pulse.Base.{
  ℕ, ℤ, pos, Bool, true, false, List, [], ◌∷◌, ◌++◌, Option, none, some, String, if◌then◌else◌, put,
  string_eq,
}
use i_pulse.Events.Category.{Category, category_for_code}
use i_pulse.Events.Severity.{Severity, info}
use i_pulse.Events.Definition.{Definition}
use i_pulse.Events.Catalog.{Catalog, lookup}

pub record Event : Type 0 where
  pub id : ℤ
  pub time : ℕ
  pub code : ℕ
  pub name : String
  pub severity : Severity
  pub category : Category
  pub message : String
  pub fields : List (String × String)
  pub process : String
  pub destination : String
  pub correlation_id : String
  pub suppressed : Bool

-- The name, severity and category that `New` takes from the catalog, or for want of it.
defined : (ℕ → String) → ℕ → Option Definition → String × Severity × Category
defined uncatalogued code none = (uncatalogued code, info, category_for_code code)
defined uncatalogued code (some d) = (d.name, d.severity, d.category)

-- `New`; `uncatalogued` is the code in decimal after `UNCATALOGUED_EVENT_`, and `now` is what the
-- clock says.
unfoldable pub new_event : (ℕ → String) → Catalog → ℕ → ℕ → List (String × String) → Event
unfolding defined
new_event uncatalogued catalog now code fields =
    let (name, severity, category) = defined uncatalogued code (lookup catalog code) in
    record {
      id = pos 0;
      time = now;
      code = code;
      name = name;
      severity = severity;
      category = category;
      message = "";
      fields = fields;
      process = "";
      destination = "";
      correlation_id = "";
      suppressed = false;
    }

unfoldable pub with_severity : Event → Severity → Event
with_severity e s = record e { severity = s }

unfoldable pub with_fields : Event → List (String × String) → Event
with_fields e f = record e { fields = e.fields ++ f }

unfoldable pub with_time : Event → ℕ → Event
with_time e t = record e { time = t }

unfoldable pub with_correlation : Event → String → Event
with_correlation e id = record e { correlation_id = id }

-- `Fields.Get`; `equal_fold` is `strings.EqualFold`.
unfoldable pub get_field :
    (String → String → Bool) → List (String × String) → String → Option String
get_field equal_fold [] key = none
get_field equal_fold ((k, v) ∷ f) key =
    let rest = get_field equal_fold f key in if equal_fold k key then some v else rest

-- The loop of `Fields.Map`.
unfoldable pub map_into : List (String × String) → List (String × String) → List (String × String)
map_into [] m = m
map_into ((k, v) ∷ f) m = map_into f (put k v m)

unfoldable pub field_map : List (String × String) → List (String × String)
unfolding map_into
field_map f = map_into f []
