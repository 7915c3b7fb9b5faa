-- ===== src/Events/Definition.antt =====
-- internal/events/catalog.go: the record that documents one event.
use i_pulse.Base.{ℕ, String, List}
use i_pulse.Events.Severity.{Severity}
use i_pulse.Events.Category.{Category}

pub record Definition : Type 0 where
  pub code : ℕ
  pub name : String
  pub severity : Severity
  pub category : Category
  pub summary : String
  pub trigger : String
  pub field_names : List String
  pub action : String

-- The composite literal of the catalog.
unfoldable pub event_definition :
    ℕ → String → Severity → Category → String → String → List String → String → Definition
event_definition c n s k m t f a = record {
  code = c;
  name = n;
  severity = s;
  category = k;
  summary = m;
  trigger = t;
  field_names = f;
  action = a;
}
