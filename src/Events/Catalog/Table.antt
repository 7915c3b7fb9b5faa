-- ===== src/Events/Catalog/Table.antt =====
-- internal/events/catalog_defs.go: all definitions, in the order in which `init` registers them.
use i_pulse.Base.{List, get, put, ◌++◌, [], Bool, true, false, ◌≡◌, refl}
use i_pulse.Events.Category.{category_for_code, is_unset, same_category}
use i_pulse.Events.Definition.{Definition, event_definition}
use i_pulse.Events.Catalog.{
  Registered, registered, duplicate_code, outside_range, register, register_one, filled,
}
use i_pulse.Events.Catalog.Connectivity.{connectivity_events}
use i_pulse.Events.Catalog.Performance.{performance_events}
use i_pulse.Events.Catalog.Availability.{availability_events}
use i_pulse.Events.Catalog.Traffic.{traffic_events}
use i_pulse.Events.Catalog.Security.{security_events}
use i_pulse.Events.Catalog.NameRouting.{name_routing_events}
use i_pulse.Events.Catalog.Interface.{interface_events}
use i_pulse.Events.Catalog.Service.{service_events}
use i_pulse.Events.Catalog.Internal.{internal_events}

unfoldable pub all_events : List Definition
all_events =
    connectivity_events ++ performance_events ++ availability_events ++ traffic_events
    ++ security_events ++ name_routing_events ++ interface_events ++ service_events
    ++ internal_events

-- The catalog after `init`.
unfoldable pub init_catalog : Registered
unfolding all_events
init_catalog = register [] all_events

unfoldable pub is_registered : Registered → Bool
is_registered (registered c) = true
is_registered (duplicate_code d e) = false
is_registered (outside_range d) = false

-- The program starts: no code is registered twice and none is outside its range.
pub init_registers : is_registered init_catalog ≡ true
unfolding is_registered init_catalog all_events register connectivity_events performance_events
    availability_events traffic_events security_events name_routing_events interface_events
    service_events internal_events event_definition category_for_code is_unset same_category get put
    register_one filled
init_registers = refl
