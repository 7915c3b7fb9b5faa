-- ===== src/Base/Float.antt =====
-- Go's float64, whose arithmetic is that of the processor: the operations that the code uses, without
-- laws. `decimal m e` is the constant m · 10⁻ᵉ, `of_count` the conversion of a count, `floor_int` that of
-- `math.Floor` of a number that is not negative to an int.
use Prim.Native.Nat.{ℕ}
use mathlib.Core.Bool.{Bool}

pub record Floats (F : Type 0) : Type 0 where
  pub decimal : ℕ → ℕ → F
  pub of_count : ℕ → F
  pub infinity : F
  pub is_nan : F → Bool
  pub is_inf : F → Bool
  pub sqrt : F → F
  pub floor_int : F → ℕ
  pub ceil_int : F → ℕ
  pub add : F → F → F
  pub sub : F → F → F
  pub mul : F → F → F
  pub div : F → F → F
  pub neg : F → F
  pub abs : F → F
  pub lt : F → F → Bool
  pub le : F → F → Bool
  pub eq : F → F → Bool
