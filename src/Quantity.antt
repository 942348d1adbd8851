-- ===== src/Quantity.antt =====
-- `resource.Quantity` of k8s.io/apimachinery, which every component computes with. It is not code of
-- this repository, so its type is a parameter `Q` with the operations that the operator calls and
-- their documented behaviour: `value` is the exact amount that a quantity represents, in a unit fine
-- enough for all of them.
use tensor_fusion_operator.Prelude.{◌≡◌}
use tensor_fusion_operator.Prelude.Int.{ℤ, pos, ◌+ℤ◌, ◌-ℤ◌, leb_ℤ}

pub record Quantity (Q : Type 0) : Type 0 where
  pub value : Q → ℤ
  pub zero : Q  -- `resource.Quantity{}`
  pub add : Q → Q → Q
  pub sub : Q → Q → Q
  pub cmp : Q → Q → ℤ
  pub as_int64 : Q → ℤ  -- the first result of `AsInt64`
  pub value-zero : value zero ≡ pos 0
  pub value-add : (a b : Q) → value (add a b) ≡ value a +ℤ value b
  pub value-sub : (a b : Q) → value (sub a b) ≡ value a -ℤ value b
  pub cmp_lem : (a b : Q) → leb_ℤ (pos 0) (cmp a b) ≡ leb_ℤ (value b) (value a)
