-- ===== src/Float.antt =====
-- Go's float64, which has no model here: its type is a parameter `F` with the operations that the
-- operator calls. `to_int64` is Go's conversion, which drops the fraction.
use tensor_fusion_operator.Prelude.{Bool}
use tensor_fusion_operator.Prelude.Int.{ℤ}

pub record Float (F : Type 0) : Type 0 where
  pub of_int : ℤ → F
  pub to_int64 : F → ℤ
  pub mul : F → F → F
  pub div : F → F → F
  pub pow : F → F → F
  pub ceil : F → F
  pub fmax : F → F → F
  pub lt : F → F → Bool
  pub max_float : F  -- `math.MaxFloat64`
