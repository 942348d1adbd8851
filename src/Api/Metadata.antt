-- ===== src/Api/Metadata.antt =====
-- Metadata, and the phases of internal/constants/constants.go.
use tensor_fusion_operator.Prelude.{List, Dict, String, Option, Bool, true, false}
use tensor_fusion_operator.Prelude.Int.{ℤ}

-- The part of Kubernetes' `ObjectMeta` that the operator uses. `deletion_timestamp` and
-- `creation_timestamp` are seconds; an owner reference is the owner's name.
pub record ObjectMeta : Type 0 where
  pub name : String
  pub namespace : String
  pub labels : Dict String
  pub annotations : Dict String
  pub owner_references : List String
  pub finalizers : List String
  pub creation_timestamp : ℤ
  pub deletion_timestamp : Option ℤ

-- `unset` is the empty text, the value of a status that was never written.
pub data Phase : Type 0 where
  unset unknown pending updating scheduling migrating destroying running succeeded failed : Phase

abbrev pub is_running : Phase → Bool
is_running Phase.running = true
is_running _ = false

abbrev pub is_updating : Phase → Bool
is_updating Phase.updating = true
is_updating _ = false

-- `phase == "" || phase == constants.PhaseUnknown`
abbrev pub is_unset_or_unknown : Phase → Bool
is_unset_or_unknown Phase.unset = true
is_unset_or_unknown Phase.unknown = true
is_unset_or_unknown _ = false

abbrev pub domain : String
domain = "tensor-fusion.ai"

abbrev pub finalizer : String
finalizer = "tensor-fusion.ai/finalizer"

abbrev pub label_key_owner : String
label_key_owner = "tensor-fusion.ai/managed-by"

abbrev pub label_key_cluster_owner : String
label_key_cluster_owner = "tensor-fusion.ai/cluster"

abbrev pub label_key_node_class : String
label_key_node_class = "tensor-fusion.ai/node-class"

abbrev pub pool_identifier_label : String
pool_identifier_label = "tensor-fusion.ai/pool-"

abbrev pub scheduling_do_not_disrupt_label : String
scheduling_do_not_disrupt_label = "tensor-fusion.ai/do-not-disrupt"

abbrev pub worker_port_env : String
worker_port_env = "TENSOR_FUSION_WORKER_PORT"
