-- ===== src/Events/Event/Build.antt =====
-- internal/events/event.go: `New` over a catalog, and the two readings of an event's fields.
use i_pulse.Base.{
  ℕ, ◌≡◌, ◌≢◌, ap, sym, ◌∙◌, refl, ◌⊎◌, inl, inr, List, [], ◌∷◌, ◌++◌, String, Option, none, some,
  Option-cases, get, put, get-put, string_eq, if◌then◌else◌, Bool, true, false,
}
use i_pulse.Events.Category.{category_for_code}
use i_pulse.Events.Severity.{info}
use i_pulse.Events.Definition.{Definition}
use i_pulse.Events.Catalog.{Catalog, registered, register, lookup}
use i_pulse.Events.Catalog.Registration.{IsAmong, register-lookup}
use i_pulse.Events.Event.{Event, new_event, field_map, map_into}

-- What an event says of its kind.
abbrev Says : Event → Definition → Type 0
Says e d = (e.name ≡ d.name) × (e.severity ≡ d.severity)

-- Building an event never fails: over a catalog whose registration succeeded, an event has the code
-- and the fields it was asked for and the category whose range holds the code, and it has either the
-- name and severity of a registered definition with that code or, when there is none, the
-- placeholder name and severity info.
pub new_event_lem :
    (uncatalogued : ℕ → String) (ds : List Definition) (catalog : Catalog) (now code : ℕ)
    (fields : List (String × String))
    → register [] ds ≡ registered catalog
    → let e = new_event uncatalogued catalog now code fields in
      (e.code ≡ code)
      × (e.fields ≡ fields)
      × (e.category ≡ category_for_code code)
      × (((d : Definition) × IsAmong d ds × (d.code ≡ code) × Says e d)
          ⊎ (((d : Definition) → IsAmong d ds → d.code ≢ code)
              × (e.name ≡ uncatalogued code)
              × (e.severity ≡ info)))
unfolding new_event
new_event_lem uncatalogued ds catalog now code fields h =
    elim (Option-cases (lookup catalog code)) [
      | inl missing ↦ rw missing (
        refl,
        refl,
        refl,
        inr (
          λ d among at_code.
              cc (sym missing ∙ (register-lookup ds catalog code d h).0.1 (among, at_code)),
          refl,
          refl,
        ),
      )
      | inr (d, found) ↦
          let (known, in_range) = register-lookup ds catalog code d h in
          rw found (
            refl,
            refl,
            in_range found,
            inl (d, (known.0 found).0, (known.0 found).1, (refl, refl)),
          )
    ]

-- The value of a key in the last field that has it.
unfoldable pub last_value : String → List (String × String) → Option String
last_value key [] = none
last_value key ((k, v) ∷ f) = elim (last_value key f) [
  | some w ↦ some w
  | none ↦ if string_eq.beq k key then some v else none
]

abbrev pub or_else : Option String → Option String → Option String
or_else none o = o
or_else (some v) o = some v

overwrite :
    (later : Option String) (b : Bool) (v : String) (o : Option String)
    → or_else later (if b then some v else o)
      ≡ or_else (elim later [ some w ↦ some w | none ↦ if b then some v else none ]) o
overwrite (some w) b v o = refl
overwrite none true v o = refl
overwrite none false v o = refl

get-map_into :
    (key : String) (f m : List (String × String))
    → get key (map_into f m) ≡ or_else (last_value key f) (get key m)
unfolding map_into last_value
get-map_into key [] m = refl
get-map_into key ((k, v) ∷ f) m =
    get-map_into key f (put k v m)
    ∙ ap (λ o. or_else (last_value key f) o) (get-put k key v m)
    ∙ overwrite (last_value key f) (string_eq.beq k key) v (get key m)

or_else-none : (o : Option String) → or_else o none ≡ o
or_else-none none = refl
or_else-none (some v) = refl

map_into-append : (f g m : List (String × String)) → map_into (f ++ g) m ≡ map_into g (map_into f m)
unfolding map_into
map_into-append [] g m = refl
map_into-append ((k, v) ∷ f) g m = map_into-append f g (put k v m)

-- The map of the fields that is written as JSON gives each key the value of its last field: the
-- fields that are added later win, and `with_fields` overrides what was there.
pub field_map-last :
    (key : String) (f g : List (String × String))
    → (get key (field_map f) ≡ last_value key f)
      × (get key (field_map (f ++ g)) ≡ or_else (last_value key g) (get key (field_map f)))
unfolding field_map get
field_map-last key f g = (
  get-map_into key f [] ∙ or_else-none (last_value key f),
  ap (λ m. get key m) (map_into-append f g []) ∙ get-map_into key g (map_into f []),
)
