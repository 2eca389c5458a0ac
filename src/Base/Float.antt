-- ===== src/Base/Float.antt =====
-- float64: its values and the operations that the program applies to them, with no law assumed.
use Prim.Native.String.{String}
use mathlib.Core.Bool.{Bool}
use theminidog.Base.Int.{ℤ}

pub record Floats : Type 1 where
  pub F : Type 0
  pub add : F → F → F
  pub minus : F → F → F
  pub mul : F → F → F
  pub div : F → F → F
  pub pow2 : F → F
  pub min_f : F → F → F
  pub of_int : ℤ → F
  -- the conversion to an int64, which truncates
  pub to_int : F → ℤ
  pub lt : F → F → Bool
  pub is_nan : F → Bool
  pub is_inf : F → Bool
  -- the format `%g`
  pub show : F → String
