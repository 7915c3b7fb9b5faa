-- ===== src/Events/Category/Ranges.antt =====
-- internal/events/category.go: `CategoryForCode` and `CategoryRange` against each other.
use i_pulse.Base.{ℕ, ◌≤◌, ◌<◌, ◌≡◌, ◌≢◌, ◌↔◌, ◌⊎◌, arith}
use i_pulse.Events.Category.{Category, unknown, category_for_code, category_range}

-- A code belongs to a category exactly when it lies in the range reserved for that category, and its
-- category is the unknown one exactly when it is below 1000 or at least 10000.
pub category_for_code_iff :
    (code : ℕ)
    → ((c : Category)
        → c ≢ unknown
        → ((category_for_code code ≡ c)
            ↔ (((category_range c).0 ≤ code) × (code < (category_range c).1))))
      × ((category_for_code code ≡ unknown) ↔ ((code < 1000) ⊎ (10000 ≤ code)))
unfolding category_for_code category_range
category_for_code_iff code =
    ((λ c known. (λ h. ground arith, λ h. ground arith)), (λ h. ground arith, λ h. ground arith))
