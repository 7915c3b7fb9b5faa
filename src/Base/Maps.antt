-- ===== src/Base/Maps.antt =====
-- Go's map as an association list. A key has one value, its first entry; the operations keep to
-- that reading, so their laws need no condition on the list.
use Prim.Native.Nat.{ℕ}
use Prim.Native.String.{String}
use mathlib.Core.Path.{◌≡◌, refl}
use mathlib.Core.Logic.{◌↔◌}
use mathlib.Core.Bool.{Bool, true}
use mathlib.Core.List.{List, [], ◌∷◌}
use mathlib.Core.Option.{Option, none, some}
use native.Mathlib.Omega.{arith}
use text.Mathlib.Text.{◌==◌ as text_eq}
use text.Mathlib.TextEquality.{eq_iff}
use i_pulse.Base.Tests.{if◌then◌else◌, ◌==◌, ==_iff}

pub record Eq {ℓ} (K : Type ℓ) : Type ℓ where
  pub beq : K → K → Bool
  pub beq_iff : (a b : K) → (beq a b ≡ true) ↔ (a ≡ b)

instance abbrev pub nat_eq : Eq ℕ
nat_eq = record { beq = ◌==◌; beq_iff = ==_iff }

instance abbrev pub string_eq : Eq String
string_eq = record { beq = text_eq; beq_iff = eq_iff }

-- What a deletion by a test leaves of the value of a key.
abbrev pub only_if {ℓ} : {V : Type ℓ} → Bool → Option V → Option V
only_if b none = none
only_if b (some v) = if b then some v else none

abbrev pub test_at {ℓ κ} : {K : Type ℓ} {V : Type κ} → (K → V → Bool) → K → Option V → Bool
test_at p k none = true
test_at p k (some v) = p k v

module _ {ℓ κ} {K : Type ℓ} {V : Type κ} ⦃e : Eq K⦄ where
  -- `v, ok := m[k]`
  unfoldable pub get : K → List (K × V) → Option V
  get k [] = none
  get k ((j, v) ∷ m) = if e.beq j k then some v else get k m

  -- `m[k] = v`
  unfoldable pub put : K → V → List (K × V) → List (K × V)
  put k v [] = (k, v) ∷ []
  put k v ((j, w) ∷ m) = if e.beq j k then (k, v) ∷ m else (j, w) ∷ put k v m

  -- `delete(m, k)`
  unfoldable pub delete : K → List (K × V) → List (K × V)
  delete k [] = []
  delete k ((j, w) ∷ m) = let rest = delete k m in if e.beq j k then rest else (j, w) ∷ rest

  -- `for k, v := range m { if !keep(k, v) { delete(m, k) } }`
  unfoldable pub retain : (K → V → Bool) → List (K × V) → List (K × V)
  retain p [] = []
  retain p ((j, w) ∷ m) = let rest = retain p m in if p j w then (j, w) ∷ rest else delete j rest

  pub get-put :
      (k j : K) (v : V) (m : List (K × V))
      → get j (put k v m) ≡ (if e.beq k j then some v else get j m)
  unfolding get put
  get-put k j v [] = refl
  get-put k j v ((i, w) ∷ m) =
      ground (arith, e.beq_iff k j, e.beq_iff i k, e.beq_iff i j, get-put k j v m)

  pub get-put_self : (k : K) (v : V) (m : List (K × V)) → get k (put k v m) ≡ some v
  get-put_self k v m = rw (get-put k k v m, (e.beq_iff k k).1 refl)

  pub get-delete :
      (k j : K) (m : List (K × V)) → get j (delete k m) ≡ (if e.beq k j then none else get j m)
  unfolding get delete
  get-delete k j [] = ground arith
  get-delete k j ((i, w) ∷ m) =
      ground (arith, e.beq_iff k j, e.beq_iff i k, e.beq_iff i j, get-delete k j m)

  pub get-retain :
      (p : K → V → Bool) (j : K) (m : List (K × V))
      → get j (retain p m) ≡ only_if (test_at p j (get j m)) (get j m)
  unfolding get retain
  get-retain p j [] = refl
  get-retain p j ((i, w) ∷ m) =
      ground (arith, e.beq_iff i j, get-retain p j m, get-delete i j (retain p m))
