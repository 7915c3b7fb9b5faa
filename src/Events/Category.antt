-- ===== src/Events/Category.antt =====
-- internal/events/category.go: the categories and the code ranges reserved for them. A category is a
-- string in the source: `unset` is the empty one.
pub mod Ranges
use i_pulse.Base.{
  ℕ, Bool, true, false, ◌==◌, ◌≡◌, arith, ◌&&◌, List, [], ◌∷◌, leb, ltb, if◌then◌else◌,
}

pub data Category : Type 0 where
  connectivity performance availability traffic security name_routing interface service internal
        unknown unset :
      Category

unfoldable pub all_categories : List Category
all_categories =
    connectivity ∷ performance ∷ availability ∷ traffic ∷ security ∷ name_routing ∷ interface
    ∷ service ∷ internal ∷ []

-- In the half-open interval.
abbrev pub within : ℕ → ℕ → ℕ → Bool
within lo hi code = leb lo code && ltb code hi

unfoldable pub category_for_code : ℕ → Category
category_for_code code =
    if within 1000 2000 code
    then connectivity
    else if within 2000 3000 code
    then performance
    else if within 3000 4000 code
    then availability
    else if within 4000 5000 code
    then traffic
    else if within 5000 6000 code
    then security
    else if within 6000 7000 code
    then name_routing
    else if within 7000 8000 code
    then interface
    else if within 8000 9000 code
    then service
    else if within 9000 10000 code
    then internal
    else unknown

-- The first code of the range and the first after it.
unfoldable pub category_range : Category → ℕ × ℕ
category_range connectivity = (1000, 2000)
category_range performance = (2000, 3000)
category_range availability = (3000, 4000)
category_range traffic = (4000, 5000)
category_range security = (5000, 6000)
category_range name_routing = (6000, 7000)
category_range interface = (7000, 8000)
category_range service = (8000, 9000)
category_range internal = (9000, 10000)
category_range unknown = (0, 0)
category_range unset = (0, 0)

unfoldable pub is_unset : Category → Bool
is_unset unset = true
is_unset _ = false

-- `==` on categories, by their place in the declaration.
place : Category → ℕ
place connectivity = 0
place performance = 1
place availability = 2
place traffic = 3
place security = 4
place name_routing = 5
place interface = 6
place service = 7
place internal = 8
place unknown = 9
place unset = 10

unfoldable pub same_category : Category → Category → Bool
unfolding place
same_category a b = place a == place b

pub same_category-≡ : (a b : Category) → same_category a b ≡ true → a ≡ b
unfolding same_category place
same_category-≡ a b h = ground arith
