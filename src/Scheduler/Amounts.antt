-- ===== src/Scheduler/Amounts.antt =====
-- The two amounts of a resource as integers, and how the scheduler's arithmetic changes them.
use tensor_fusion_operator.Prelude.{◌≡◌, true, arith}
use tensor_fusion_operator.Prelude.Int.{ℤ, ◌+ℤ◌, ◌-ℤ◌, ◌≤ℤ◌}
use tensor_fusion_operator.Quantity.{Quantity}
use tensor_fusion_operator.Api.{Resource}
use tensor_fusion_operator.Scheduler.{fits, deduct, restore}

pub data Dimension : Type 0 where
  tflops vram : Dimension

module _ {Q : Type 0} ⦃q : Quantity Q⦄ where
  open q use {value, value-add, value-sub, cmp_lem}

  unfoldable pub amount : Dimension → Resource Q → ℤ
  amount Dimension.tflops r = value r.tflops
  amount Dimension.vram r = value r.vram

  pub amount-deduct :
      (d : Dimension) (a r : Resource Q) → amount d (deduct a r) ≡ amount d a -ℤ amount d r
  unfolding amount deduct
  amount-deduct Dimension.tflops a r = value-sub a.tflops r.tflops
  amount-deduct Dimension.vram a r = value-sub a.vram r.vram

  pub amount-restore :
      (d : Dimension) (a r : Resource Q) → amount d (restore a r) ≡ amount d a +ℤ amount d r
  unfolding amount restore
  amount-restore Dimension.tflops a r = value-add a.tflops r.tflops
  amount-restore Dimension.vram a r = value-add a.vram r.vram

  pub fits→amount-le :
      (a r : Resource Q) → fits a r ≡ true → (d : Dimension) → amount d r ≤ℤ amount d a
  unfolding amount fits
  fits→amount-le a r h Dimension.tflops = ground (arith, cmp_lem a.tflops r.tflops)
  fits→amount-le a r h Dimension.vram =
      ground (arith, cmp_lem a.vram r.vram, cmp_lem a.tflops r.tflops)

  pub amount-le→fits :
      (a r : Resource Q) → ((d : Dimension) → amount d r ≤ℤ amount d a) → fits a r ≡ true
  unfolding amount fits
  amount-le→fits a r h = ground (
    arith,
    cmp_lem a.tflops r.tflops,
    cmp_lem a.vram r.vram,
    h Dimension.tflops,
    h Dimension.vram,
  )
