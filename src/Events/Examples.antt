-- ===== src/Events/Examples.antt =====
-- The catalog and the events at concrete inputs.
use i_pulse.Base.{ℕ, ◌≤◌, ◌<◌, ◌≡◌, ◌↔◌, refl, [], ◌∷◌, String, some, arith, get, put, string_eq}
use i_pulse.Events.Category.{traffic, category_for_code, category_range, is_unset, same_category}
use i_pulse.Events.Category.Ranges.{category_for_code_iff}
use i_pulse.Events.Severity.{warning}
use i_pulse.Events.Definition.{Definition}
use i_pulse.Events.Catalog.{Catalog, registered, register, register_one, filled, lookup}
use i_pulse.Events.Catalog.Registration.{IsAmong, register-lookup}
use i_pulse.Events.Event.{new_event}
use i_pulse.Events.Event.Build.{new_event_lem}

category_for_code_iff_example : (category_for_code 4005 ≡ traffic) ↔ ((4000 ≤ 4005) × (4005 < 5000))
unfolding category_range
category_for_code_iff_example = (category_for_code_iff 4005).0 traffic (λ h. ground arith)

abbrev upper_already : String → String
upper_already s = s

abbrev upload : Definition
upload = record {
  code = 4005;
  name = "SUSTAINED_UPLOAD";
  severity = warning;
  category = traffic;
  summary = "";
  trigger = "";
  field_names = [];
  action = "";
}

abbrev small_catalog : Catalog
small_catalog = (4005, upload) ∷ []

small_catalog_registers : register [] (upload ∷ []) ≡ registered small_catalog
unfolding register register_one filled is_unset same_category category_for_code get put
small_catalog_registers = refl

register-lookup_example :
    (lookup small_catalog 4005 ≡ some upload)
    ↔ (IsAmong upload (upload ∷ []) × (upload.code ≡ 4005))
register-lookup_example =
    (register-lookup (upload ∷ []) small_catalog 4005 upload small_catalog_registers).0

abbrev placeholder : ℕ → String
placeholder code = "UNCATALOGUED_EVENT_4006"

new_event_lem_example :
    (new_event placeholder small_catalog 9 4006 []).category ≡ category_for_code 4006
new_event_lem_example =
    (new_event_lem placeholder (upload ∷ []) small_catalog 9 4006 [] small_catalog_registers).2
