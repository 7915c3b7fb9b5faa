-- ===== src/Events/Catalog.antt =====
-- internal/events/catalog.go: the catalog and its registration. Go's `panic` is the two failures of
-- `Registered`.
mod CodesLow
mod CodesHigh
mod Connectivity
mod Performance
mod Availability
mod Traffic
mod Security
mod NameRouting
mod Interface
mod Service
mod Internal
pub mod Table
pub mod Registration
use i_pulse.Base.{
  ℕ, Bool, true, false, not, String, List, [], ◌∷◌, Option, none, some, if◌then◌else◌, get, put,
  nat_eq, string_eq,
}
use i_pulse.Events.Category.{category_for_code, is_unset, same_category}
use i_pulse.Events.Definition.{Definition}

abbrev pub Catalog : Type 0
Catalog = List (ℕ × Definition)

pub data Registered : Type 0 where
  registered : Catalog → Registered
  duplicate_code : Definition → Definition → Registered
  outside_range : Definition → Registered

-- A definition without a category gets that of its code.
unfoldable pub filled : Definition → Definition
filled d = if is_unset d.category then record d { category = category_for_code d.code } else d

-- One round of the loop of `register`.
unfoldable pub register_one : Catalog → Definition → Registered
register_one catalog d = elim (get d.code catalog) [
  | some existing ↦ duplicate_code d existing
  | none ↦
      if not (same_category (category_for_code d.code) d.category)
      then outside_range d
      else registered (put d.code d catalog)
]

unfoldable pub register : Catalog → List Definition → Registered
register catalog [] = registered catalog
register catalog (d ∷ ds) = elim (register_one catalog (filled d)) [
  | registered next ↦ register next ds
  | duplicate_code e f ↦ duplicate_code e f
  | outside_range e ↦ outside_range e
]

unfoldable pub lookup : Catalog → ℕ → Option Definition
lookup catalog code = get code catalog

-- `LookupName`; `upper_trimmed` is `strings.ToUpper` after `strings.TrimSpace`.
named : String → Catalog → Option Definition
named up [] = none
named up ((code, d) ∷ rest) =
    let later = named up rest in if string_eq.beq d.name up then some d else later

unfoldable pub lookup_name : (String → String) → Catalog → String → Option Definition
unfolding named
lookup_name upper_trimmed catalog name = named (upper_trimmed name) catalog
