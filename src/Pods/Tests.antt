-- ===== src/Pods/Tests.antt =====
-- The theorem of the pod reconciler at a concrete connection.
use tensor_fusion_operator.Prelude.{[], ◌∷◌, done, fail, not_found}
use tensor_fusion_operator.Prelude.Int.{ℤ, pos}
use tensor_fusion_operator.Api.{TensorFusionConnectionPhase}
use tensor_fusion_operator.Samples.{int_quantity, connection_in}
use tensor_fusion_operator.Pods.{Env, apply_all}
use tensor_fusion_operator.Pods.Missing.{AppliedAll, apply_all-AppliedAll}

-- A server without connections.
abbrev env : Env ℤ
env = record {
  pod = λ h k. fail not_found;
  connection = λ h k. fail not_found;
  connection_created = λ h c. done tt;
  parse_quantity = λ t. done (pos 1);
}

apply_all-AppliedAll_example :
    AppliedAll env
      (connection_in TensorFusionConnectionPhase.pending "" ∷ [])
      []
      (apply_all env (connection_in TensorFusionConnectionPhase.pending "" ∷ []) [])
apply_all-AppliedAll_example =
    apply_all-AppliedAll env (connection_in TensorFusionConnectionPhase.pending "" ∷ []) []
