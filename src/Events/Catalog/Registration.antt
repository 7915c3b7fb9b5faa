-- ===== src/Events/Catalog/Registration.antt =====
-- internal/events/catalog.go: what the catalog holds after definitions have been registered.
use i_pulse.Base.{
  ℕ, ◌≡◌, refl, ap, sym, ◌∙◌, ◌↔◌, ◌≢◌, ◌⊎◌, inl, inr, List, [], ◌∷◌, none, some, arith, Bool-cases,
  if◌then◌else◌, get, put, get-put, nat_eq, ◌==◌,
}
use i_pulse.Events.Category.{category_for_code, same_category-≡}
use i_pulse.Events.Definition.{Definition}
use i_pulse.Events.Catalog.{
  Catalog, Registered, registered, duplicate_code, outside_range, register_one, register, filled,
  lookup,
}

-- Among the definitions, its category filled in.
abbrev pub IsAmong : Definition → List Definition → Type 0
IsAmong d [] = ⊥
IsAmong d (e ∷ es) = (d ≡ filled e) ⊎ IsAmong d es

-- One registration that does not panic.
-- What one registration that does not panic has checked and done.
Added : Catalog → Definition → Catalog → Type 0
Added catalog f next =
    (get f.code catalog ≡ none)
    × (category_for_code f.code ≡ f.category)
    × (next ≡ put f.code f catalog)

register_one-Added :
    (catalog : Catalog) (f : Definition) (next : Catalog)
    → register_one catalog f ≡ registered next
    → Added catalog f next
unfolding Added register_one
register_one-Added catalog f next h =
    ground (arith, same_category-≡ (category_for_code f.code) f.category)

-- The catalog after one registration, under each code.
get-Added :
    (catalog : Catalog) (f : Definition) (next : Catalog) (code : ℕ) (d : Definition)
    → Added catalog f next
    → (get code next ≡ some d) ↔ ((get code catalog ≡ some d) ⊎ ((d ≡ f) × (d.code ≡ code)))
unfolding Added
get-Added catalog f next code d (new, fits, e) =
    let at : get code next ≡ (if f.code == code then some f else get code catalog) =
      ap (λ m. get code m) e ∙ get-put f.code code f catalog in
    elim (Bool-cases (f.code == code)) [
      | inl same ↦
          let here : get code next ≡ some f = rw (at, same) in
          let is : f.code ≡ code = ground arith in
          (
            λ h. let one : d ≡ f = cc (sym here ∙ h) in inr (one, ap (λ x. x.code) one ∙ is),
            λ h. elim h [
              | inl old ↦ absurd (cc (sym new ∙ ap (λ c. get c catalog) is ∙ old))
              | inr (one, _) ↦ here ∙ ap (λ x. some x) (sym one)
            ],
          )
      | inr other ↦
          let here : get code next ≡ get code catalog = rw (at, other) in
          (
            λ h. inl (sym here ∙ h),
            λ h. elim h [
              | inl old ↦ here ∙ old
              | inr (one, at_code) ↦
                  let is : f.code ≡ code = ap (λ x. x.code) (sym one) ∙ at_code in
                  absurd (ground arith)
            ],
          )
    ]

Registered-cases :
    (r : Registered) → ((c : Catalog) × (r ≡ registered c)) ⊎ ((c : Catalog) → r ≢ registered c)
Registered-cases (registered c) = inl (c, refl)
Registered-cases (duplicate_code e f) = inr (λ c h. cc h)
Registered-cases (outside_range e) = inr (λ c h. cc h)

register-step :
    (catalog next : Catalog) (e : Definition) (es : List Definition)
    → register_one catalog (filled e) ≡ registered next
    → register catalog (e ∷ es) ≡ register next es
unfolding register
register-step catalog next e es h = rw (register, h)

register-panics :
    (catalog after : Catalog) (e : Definition) (es : List Definition)
    → ((c : Catalog) → register_one catalog (filled e) ≢ registered c)
    → register catalog (e ∷ es) ≢ registered after
unfolding register
register-panics catalog after e es bad h = go (register_one catalog (filled e)) bad h
  where
    go :
        (r : Registered)
        → ((c : Catalog) → r ≢ registered c)
        → elim r [
          | registered next ↦ register next es
          | duplicate_code e f ↦ duplicate_code e f
          | outside_range e ↦ outside_range e
        ]
          ≢ registered after
    go (registered next) bad h = bad next refl
    go (duplicate_code e f) bad h = cc h
    go (outside_range e) bad h = cc h

register_none : (catalog after : Catalog) → register catalog [] ≡ registered after → catalog ≡ after
unfolding register
register_none catalog after h = cc h

register_iff :
    (catalog after : Catalog) (ds : List Definition) (code : ℕ) (d : Definition)
    → register catalog ds ≡ registered after
    → (get code after ≡ some d) ↔ ((get code catalog ≡ some d) ⊎ (IsAmong d ds × (d.code ≡ code)))
register_iff catalog after [] code d h =
    let same : catalog ≡ after = register_none catalog after h in
    (
      λ g. inl (ap (λ m. get code m) same ∙ g),
      λ g. elim g [
        | inl old ↦ ap (λ m. get code m) (sym same) ∙ old
        | inr (none_is, _) ↦ absurd none_is
      ],
    )
register_iff catalog after (e ∷ es) code d h =
    elim (Registered-cases (register_one catalog (filled e))) [
      | inl (next, r) ↦
          let rest =
            register_iff next after es code d (sym (register-step catalog next e es r) ∙ h) in
          let one =
            get-Added catalog (filled e) next code d
              (register_one-Added catalog (filled e) next r) in
          (
            λ g. elim (rest.0 g) [
              | inl early ↦ elim (one.0 early) [
                | inl old ↦ inl old
                | inr (is, at_code) ↦ inr (inl is, at_code)
              ]
              | inr (later, at_code) ↦ inr (inr later, at_code)
            ],
            λ g. rest.1 (elim g [
              | inl old ↦ inl (one.1 (inl old))
              | inr (inl is, at_code) ↦ inl (one.1 (inr (is, at_code)))
              | inr (inr later, at_code) ↦ inr (later, at_code)
            ]),
          )
      | inr bad ↦ absurd (register-panics catalog after e es bad h)
    ]

register-IsInRange :
    (catalog after : Catalog) (ds : List Definition) (d : Definition)
    → register catalog ds ≡ registered after
    → IsAmong d ds
    → category_for_code d.code ≡ d.category
unfolding Added
register-IsInRange catalog after [] d h among = elim among [ ]
register-IsInRange catalog after (e ∷ es) d h among =
    elim (Registered-cases (register_one catalog (filled e))) [
      | inl (next, r) ↦ elim among [
        | inl is ↦
            ap (λ x. category_for_code x.code) is
            ∙ (register_one-Added catalog (filled e) next r).1
            ∙ ap (λ x. x.category) (sym is)
        | inr later ↦
            register-IsInRange next after es d (sym (register-step catalog next e es r) ∙ h) later
      ]
      | inr bad ↦ absurd (register-panics catalog after e es bad h)
    ]

-- When a registration into the empty catalog succeeds, looking up a code finds a definition exactly
-- when it is one of the registered ones and has that code, so that no definition is lost or shadows
-- another, and the category of what is found is the one whose range holds the code, the unknown one
-- if no range does.
pub register-lookup :
    (ds : List Definition) (after : Catalog) (code : ℕ) (d : Definition)
    → register [] ds ≡ registered after
    → ((lookup after code ≡ some d) ↔ (IsAmong d ds × (d.code ≡ code)))
      × (lookup after code ≡ some d → d.category ≡ category_for_code code)
unfolding lookup get
register-lookup ds after code d h =
    let found = register_iff [] after ds code d h in
    let at_end : get code after ≡ some d → IsAmong d ds × (d.code ≡ code) =
      λ g. elim (found.0 g) [ inl old ↦ absurd (cc old) | inr new ↦ new ] in
    (
      (at_end, λ g. found.1 (inr g)),
      λ g.
          let (among, at_code) = at_end g in
          sym (register-IsInRange [] after ds d h among) ∙ ap category_for_code at_code,
    )
