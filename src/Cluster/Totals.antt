-- ===== src/Cluster/Totals.antt =====
-- What `RefreshStatus` leaves in the status, and when it panics.
use tensor_fusion_operator.Prelude.{
  ℕ, suc, ◌<◌, ◌≡◌, String, true, List, [], ◌∷◌, ◌++◌, map, keep, length, not,
}
use tensor_fusion_operator.Prelude.Int.{ℤ, pos, ◌+ℤ◌}
use tensor_fusion_operator.Quantity.{Quantity}
use tensor_fusion_operator.Api.{GpuPool, TensorFusionCluster, TensorFusionClusterStatus, is_running}

module _ {Q : Type 0} ⦃q : Quantity Q⦄ where
  open q use {value, value-add, value-zero}

  -- Every running pool stands at a position of the list below `n`, counted from `i`.
  abbrev pub Room : ℕ → ℕ → List (GpuPool Q) → Type 0
  Room n i [] = Unit
  Room n i (pool ∷ pools) = (is_running pool.status.phase ≡ true → i < n) × Room n (suc i) pools

  unfoldable pub sum_of : (GpuPool Q → Q) → List (GpuPool Q) → ℤ
  sum_of f [] = pos 0
  sum_of f (pool ∷ pools) = value (f pool) +ℤ sum_of f pools

  abbrev pub not_ready_names : List (GpuPool Q) → List String
  not_ready_names pools =
      map (λ (p : GpuPool Q). p.meta.name) (keep (λ p. not (is_running p.status.phase)) pools)

  -- The sums and the names that the loop has added to a status.
  pub record Added (pools : List (GpuPool Q)) (st st' : TensorFusionClusterStatus Q) : Type 0 where
    pub tflops :
        value st'.total_tflops ≡ value st.total_tflops +ℤ sum_of (λ p. p.status.total_tflops) pools
    pub vram : value st'.total_vram ≡ value st.total_vram +ℤ sum_of (λ p. p.status.total_vram) pools
    pub free_tflops :
        value st'.available_tflops
        ≡ value st.available_tflops +ℤ sum_of (λ p. p.status.available_tflops) pools
    pub free_vram :
        value st'.available_vram
        ≡ value st.available_vram +ℤ sum_of (λ p. p.status.available_vram) pools
    pub not_ready : st'.not_ready_gpu_pools ≡ st.not_ready_gpu_pools ++ not_ready_names pools
    pub slots : length st'.ready_gpu_pools ≡ length st.ready_gpu_pools

  -- Marking a pool changes no sum, adds the name of a pool that is not running and no slot.
  abbrev Marked : GpuPool Q → TensorFusionClusterStatus Q → TensorFusionClusterStatus Q → Type 0
  Marked pool st st' =
      (st'.total_tflops ≡ st.total_tflops)
      × (st'.total_vram ≡ st.total_vram)
      × (st'.available_tflops ≡ st.available_tflops)
      × (st'.available_vram ≡ st.available_vram)
      × (st'.not_ready_gpu_pools ≡ st.not_ready_gpu_pools ++ not_ready_names (pool ∷ []))
      × (length st'.ready_gpu_pools ≡ length st.ready_gpu_pools)

  -- What a refreshed status says of the pools, whatever the status was before.
  pub record Refreshed (tfc : TensorFusionCluster Q) (pools : List (GpuPool Q))
      (st : TensorFusionClusterStatus Q) : Type 0 where
    pub tflops : value st.total_tflops ≡ sum_of (λ p. p.status.total_tflops) pools
    pub vram : value st.total_vram ≡ sum_of (λ p. p.status.total_vram) pools
    pub free_tflops : value st.available_tflops ≡ sum_of (λ p. p.status.available_tflops) pools
    pub free_vram : value st.available_vram ≡ sum_of (λ p. p.status.available_vram) pools
    pub not_ready : st.not_ready_gpu_pools ≡ not_ready_names pools
    pub slots : length st.ready_gpu_pools ≡ length tfc.spec.gpu_pools
