-- ===== src/Cluster/Status.antt =====
-- The methods of `TensorFusionCluster` that write its status. Setting a condition is code of
-- k8s.io/apimachinery, a parameter: it answers the new conditions and whether they changed.
use tensor_fusion_operator.Prelude.{
  ℕ, zero, suc, String, is_empty, Bool, true, false, not, ◌||◌, List, [], ◌∷◌, ◌++◌, length,
  replicate, Option, none, some, if◌then◌else◌, Outcome, ok, panicked,
}
use mathlib.Core.Option
use tensor_fusion_operator.Prelude.Int.{pos, ◌+ℤ◌, int32}
use tensor_fusion_operator.Quantity.{Quantity}
use tensor_fusion_operator.Api.{
  Condition, GpuPool, Phase, TensorFusionCluster, TensorFusionClusterStatus, is_running,
}

abbrev pub SetCondition : Type 0
SetCondition = List Condition → Condition → List Condition × Bool

abbrev pub condition_ready : String
condition_ready = "Ready"

abbrev pub with_status :
    {Q : Type 0} → TensorFusionCluster Q → TensorFusionClusterStatus Q → TensorFusionCluster Q
with_status tfc st = record tfc { status = st }

module _ {Q : Type 0} (set_status_condition : SetCondition) where
  -- The phase and the `Ready` condition, which every method sets first; whether the condition changed.
  unfoldable pub set_ready :
      Phase → Condition → TensorFusionCluster Q → TensorFusionCluster Q × Bool
  set_ready phase condition tfc =
      let (conditions, changed) = set_status_condition tfc.status.conditions condition in
      (
        record tfc { status = record (tfc.status) { phase = phase; conditions = conditions } },
        changed,
      )

  unfoldable pub set_as_pending : TensorFusionCluster Q → TensorFusionCluster Q
  unfolding set_ready
  set_as_pending tfc =
      (set_ready Phase.pending
        (record { type = condition_ready; status = false; reason = "NewCreation"; message = "" })
        tfc).0

  -- The loop over the further conditions: an empty reason gets the default.
  unfoldable pub set_conditions :
      String → List Condition → TensorFusionCluster Q × Bool → TensorFusionCluster Q × Bool
  set_conditions default [] (tfc, changed) = (tfc, changed)
  set_conditions default (c ∷ rest) (tfc, changed) =
      let c' = record c { reason = if is_empty c.reason then default else c.reason } in
      let (conditions, cond_changed) = set_status_condition tfc.status.conditions c' in
      set_conditions default rest (
        record tfc { status = record (tfc.status) { conditions = conditions } },
        changed || cond_changed,
      )

  unfoldable pub set_as_updating :
      List Condition → TensorFusionCluster Q → TensorFusionCluster Q × Bool
  unfolding set_ready set_conditions
  set_as_updating conditions tfc = set_conditions "StillChecking" conditions (
      set_ready Phase.updating
        (record {
          type = condition_ready;
          status = false;
          reason = "ResourcesUpdated";
          message = "";
        })
        tfc)

  unfoldable pub set_as_ready :
      List Condition → TensorFusionCluster Q → TensorFusionCluster Q × Bool
  unfolding set_ready set_conditions
  set_as_ready conditions tfc =
      let changed = not (is_running tfc.status.phase) in
      let (tfc', ready_changed) =
        set_ready Phase.running
          (record { type = condition_ready; status = true; reason = "CheckPassed"; message = "" })
          tfc in
      set_conditions "CheckPassed" conditions (tfc', changed || ready_changed)

-- `xs[i] = v`, which panics out of range.
unfoldable pub write_at : ℕ → String → List String → Option (List String)
write_at i v [] = none
write_at zero v (x ∷ xs) = some (v ∷ xs)
write_at (suc i) v (x ∷ xs) = Option.map (λ ys. x ∷ ys) (write_at i v xs)

module _ {Q : Type 0} ⦃q : Quantity Q⦄ where
  open q use {add}

  -- The pool `i` goes to the ready or to the not ready ones.
  unfoldable pub mark :
      ℕ → GpuPool Q → TensorFusionClusterStatus Q → Option (TensorFusionClusterStatus Q)
  unfolding write_at
  mark i pool st =
      if is_running pool.status.phase
      then Option.map (λ names. record st { ready_gpu_pools = names })
          (write_at i pool.meta.name st.ready_gpu_pools)
      else some (record st { not_ready_gpu_pools = st.not_ready_gpu_pools ++ pool.meta.name ∷ [] })

  unfoldable pub tally : GpuPool Q → TensorFusionClusterStatus Q → TensorFusionClusterStatus Q
  tally pool st = record st {
    total_nodes = int32 (st.total_nodes +ℤ pool.status.total_nodes);
    total_gpus = int32 (st.total_gpus +ℤ pool.status.total_gpus);
    total_tflops = add st.total_tflops pool.status.total_tflops;
    total_vram = add st.total_vram pool.status.total_vram;
    available_tflops = add st.available_tflops pool.status.available_tflops;
    available_vram = add st.available_vram pool.status.available_vram;
  }

  unfoldable pub refresh_from :
      ℕ → List (GpuPool Q) → TensorFusionClusterStatus Q → Outcome (TensorFusionClusterStatus Q)
  unfolding mark tally
  refresh_from i [] st = ok st
  refresh_from i (pool ∷ pools) st = elim (mark i pool st) [
    | none ↦ panicked
    | some st' ↦ refresh_from (suc i) pools (tally pool st')
  ]

  unfoldable pub cleared : TensorFusionCluster Q → TensorFusionClusterStatus Q
  cleared tfc = record (tfc.status) {
    total_pools = int32 (pos (length tfc.spec.gpu_pools));
    ready_gpu_pools = replicate (length tfc.spec.gpu_pools) "";
    not_ready_gpu_pools = [];
    total_nodes = pos 0;
    total_gpus = pos 0;
    total_tflops = q.zero;
    total_vram = q.zero;
    available_tflops = q.zero;
    available_vram = q.zero;
  }

  -- `RefreshStatus`
  unfoldable pub refresh_status :
      List (GpuPool Q) → TensorFusionCluster Q → Outcome (TensorFusionClusterStatus Q)
  unfolding refresh_from cleared
  refresh_status pools tfc = refresh_from zero pools (cleared tfc)
