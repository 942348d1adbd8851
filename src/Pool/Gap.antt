-- ===== src/Pool/Gap.antt =====
-- The first half of `reconcilePoolCapacityWithProvisioner` of gpupool_node_provision.go: whether the
-- pool has to grow, and by how much.
use tensor_fusion_operator.Prelude.{
  Bool, true, false, ◌&&◌, ◌||◌, not, Option, none, some, ◌≡◌, refl, inl, inr, Option-cases,
  if◌then◌else◌, arith,
}
use tensor_fusion_operator.Prelude.Int.{ℤ, pos, ◌-ℤ◌, int64, leb_ℤ, ltb_ℤ}
use tensor_fusion_operator.Quantity.{Quantity}
use tensor_fusion_operator.Api.{CapacityConfig, GpuOrCpuResourceUnit, GpuPoolStatus, is_running}

-- The local variables of the decision; `constrained` tells that the event of the maximum was sent.
pub record Decision : Type 0 where
  pub should_scale_up : Bool
  pub tflops_gap : ℤ
  pub vram_gap : ℤ
  pub constrained : Bool

abbrev pub is_gap : ℤ → Bool
is_gap gap = ltb_ℤ (pos 0) gap

abbrev no_decision : Decision
no_decision = record {
  should_scale_up = false;
  tflops_gap = pos 0;
  vram_gap = pos 0;
  constrained = false;
}

abbrev gap_decision : ℤ → ℤ → Decision
gap_decision tflops vram = record {
  should_scale_up = is_gap tflops || is_gap vram;
  tflops_gap = tflops;
  vram_gap = vram;
  constrained = false;
}

module _ {Q : Type 0} ⦃q : Quantity Q⦄ where
  open q use {as_int64}

  -- Without warm resources the warm-up amounts are 0.
  abbrev pub warm_up : Option (GpuOrCpuResourceUnit Q) → ℤ × ℤ
  warm_up none = (pos 0, pos 0)
  warm_up (some warm) = (as_int64 warm.tflops, as_int64 warm.vram)

  -- `minTFlops - totalTFlops` and the same for the VRAM, in int64.
  abbrev pub min_gap : GpuOrCpuResourceUnit Q → GpuPoolStatus Q → ℤ × ℤ
  min_gap least status = (
    int64 (as_int64 least.tflops -ℤ as_int64 status.total_tflops),
    int64 (as_int64 least.vram -ℤ as_int64 status.total_vram),
  )

  abbrev pub warm_gap : Option (GpuOrCpuResourceUnit Q) → GpuPoolStatus Q → ℤ × ℤ
  warm_gap warm status = (
    int64 ((warm_up warm).0 -ℤ as_int64 status.available_tflops),
    int64 ((warm_up warm).1 -ℤ as_int64 status.available_vram),
  )

  abbrev check_min : Option (GpuOrCpuResourceUnit Q) → GpuPoolStatus Q → Decision
  check_min none status = no_decision
  check_min (some least) status =
      let (tflops, vram) = min_gap least status in gap_decision tflops vram

  -- Only a running pool is checked against the warm-up amounts.
  abbrev check_warm_up : Option (GpuOrCpuResourceUnit Q) → GpuPoolStatus Q → Decision → Decision
  check_warm_up warm status d =
      let (tflops, vram) = warm_gap warm status in
      if not d.should_scale_up && is_running status.phase then gap_decision tflops vram else d

  abbrev pub is_at_max : GpuOrCpuResourceUnit Q → GpuPoolStatus Q → Bool
  is_at_max most status =
      leb_ℤ (as_int64 most.tflops) (as_int64 status.total_tflops)
      || leb_ℤ (as_int64 most.vram) (as_int64 status.total_vram)

  abbrev check_max : Option (GpuOrCpuResourceUnit Q) → GpuPoolStatus Q → Decision → Decision
  check_max none status d = d
  check_max (some most) status d =
      if d.should_scale_up && is_at_max most status
      then record d { should_scale_up = false; constrained = true }
      else d

  unfoldable pub decide : CapacityConfig Q → GpuPoolStatus Q → Decision
  decide config status =
      check_max config.max_resources status
        (check_warm_up config.warm_resources status (check_min config.min_resources status))

  -- What is missing to an amount, in int64.
  abbrev pub missing : ℤ → Q → ℤ
  missing wanted have = int64 (wanted -ℤ as_int64 have)

  abbrev pub lacks : ℤ → Q → Bool
  lacks wanted have = ltb_ℤ (pos 0) (missing wanted have)

  -- The pool has less than its minimum, in TFLOPS or in VRAM.
  abbrev pub below_min : CapacityConfig Q → GpuPoolStatus Q → Bool
  below_min config status = elim config.min_resources [
    | none ↦ false
    | some least ↦
        lacks (as_int64 least.tflops) status.total_tflops
        || lacks (as_int64 least.vram) status.total_vram
  ]

  -- The amounts that a pool keeps available; 0 where none are configured.
  abbrev pub warm_tflops : CapacityConfig Q → ℤ
  warm_tflops config = elim config.warm_resources [
    | none ↦ pos 0
    | some warm ↦ as_int64 warm.tflops
  ]

  abbrev pub warm_vram : CapacityConfig Q → ℤ
  warm_vram config = elim config.warm_resources [ none ↦ pos 0 | some warm ↦ as_int64 warm.vram ]

  abbrev pub below_warm_up : CapacityConfig Q → GpuPoolStatus Q → Bool
  below_warm_up config status =
      is_running status.phase
      && (lacks (warm_tflops config) status.available_tflops
          || lacks (warm_vram config) status.available_vram)

  -- The pool has its maximum, in TFLOPS or in VRAM.
  abbrev pub at_max : CapacityConfig Q → GpuPoolStatus Q → Bool
  at_max config status = elim config.max_resources [
    | none ↦ false
    | some most ↦
        leb_ℤ (as_int64 most.tflops) (as_int64 status.total_tflops)
        || leb_ℤ (as_int64 most.vram) (as_int64 status.total_vram)
  ]

  warm_up-amounts :
      (config : CapacityConfig Q)
      → warm_up config.warm_resources ≡ (warm_tflops config, warm_vram config)
  warm_up-amounts config = elim (Option-cases config.warm_resources) [
    | inl e ↦ rw e refl
    | inr (warm, e) ↦ rw e refl
  ]

  -- What a decision says of the pool.
  pub record Decides (config : CapacityConfig Q) (status : GpuPoolStatus Q) (d : Decision)
      : Type 0 where
    pub grows :
        d.should_scale_up
        ≡ (below_min config status || below_warm_up config status) && not (at_max config status)
    pub forbidden :
        d.constrained
        ≡ (below_min config status || below_warm_up config status) && at_max config status
    pub gap :
        d.should_scale_up ≡ true → ltb_ℤ (pos 0) d.tflops_gap || ltb_ℤ (pos 0) d.vram_gap ≡ true
    pub min_gaps :
        (least : GpuOrCpuResourceUnit Q)
        → config.min_resources ≡ some least
        → below_min config status ≡ true
        → (d.tflops_gap ≡ missing (as_int64 least.tflops) status.total_tflops)
          × (d.vram_gap ≡ missing (as_int64 least.vram) status.total_vram)
    pub warm_gaps :
        below_min config status ≡ false
        → below_warm_up config status ≡ true
        → (d.tflops_gap ≡ missing (warm_tflops config) status.available_tflops)
          × (d.vram_gap ≡ missing (warm_vram config) status.available_vram)

  -- The pool is to grow if and only if it is below its minimum, or it runs and is below its warm-up
  -- amounts, and it has not reached its maximum in TFLOPS or in VRAM, where there is one; the event
  -- is sent if and only if only the maximum forbids it. A pool that is to grow has a gap above 0: what
  -- is missing to the minimum if it is below that, and otherwise to the warm-up amounts.
  pub decide_lem :
      (config : CapacityConfig Q) (status : GpuPoolStatus Q)
      → Decides config status (decide config status)
  unfolding decide
  decide_lem config status = elim (Option-cases config.min_resources) [
    | inl e ↦ elim (Option-cases config.max_resources) [
      | inl e' ↦
          rw (decide, e, e', warm_up-amounts config)
            (record {
              grows = ground arith;
              forbidden = ground arith;
              gap = ground arith;
              min_gaps = λ l h. ground arith;
              warm_gaps = ground arith;
            })
      | inr (most, e') ↦
          rw (decide, e, e', warm_up-amounts config)
            (record {
              grows = ground arith;
              forbidden = ground arith;
              gap = ground arith;
              min_gaps = λ l h. ground arith;
              warm_gaps = ground arith;
            })
    ]
    | inr (least, e) ↦ elim (Option-cases config.max_resources) [
      | inl e' ↦
          rw (decide, e, e', warm_up-amounts config)
            (record {
              grows = ground arith;
              forbidden = ground arith;
              gap = ground arith;
              min_gaps = λ l h. ground arith;
              warm_gaps = ground arith;
            })
      | inr (most, e') ↦
          rw (decide, e, e', warm_up-amounts config)
            (record {
              grows = ground arith;
              forbidden = ground arith;
              gap = ground arith;
              min_gaps = λ l h. ground arith;
              warm_gaps = ground arith;
            })
    ]
  ]
