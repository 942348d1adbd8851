-- ===== src/Nodes/World.antt =====
-- The calls of the node reconciler and what answers them.
use tensor_fusion_operator.Prelude.{String, List, Option, Bool, Reply}
use tensor_fusion_operator.Api.{GpuNode, GpuPool, NodeSelectorTerm, ObjectMeta}

-- Kubernetes' `Node`, less its spec and status.
pub record Node : Type 0 where
  pub meta : ObjectMeta

pub data Call (Q : Type 0) : Type 0 where
  get_node : String → Call Q
  get_gpu_node : String → Call Q
  update_node : Node → Call Q
  list_pools : Call Q
  delete_gpu_node : String → Call Q
  create_or_update : GpuNode Q → Call Q
  update_gpu_node : GpuNode Q → Call Q
  update_status : GpuNode Q → Call Q

abbrev pub History : Type 0 → Type 0
History Q = List (Call Q)

-- `match_terms` is `MatchNodeSelectorTerms`, `linked` and `pool_owned` are the owner references whose
-- error the source drops, `gpu_node_owned` is the one that it checks, and `new_gpu_node` has no content
-- but its name. Calls that take an object by reference leave the server's version in it.
pub record Env (Q : Type 0) : Type 0 where
  pub node : History Q → String → Reply Node
  pub gpu_node : History Q → String → Reply (GpuNode Q)
  pub node_updated : History Q → Node → Reply (Unit {0})
  pub pools : History Q → Reply (List (GpuPool Q))
  pub gpu_node_deleted : History Q → String → Reply (Unit {0})
  pub gpu_node_ensured : History Q → GpuNode Q → Reply (GpuNode Q)
  pub gpu_node_updated : History Q → GpuNode Q → Reply (GpuNode Q)
  pub status_updated : History Q → GpuNode Q → Reply (Unit {0})
  pub match_terms : Node → Option (List NodeSelectorTerm) → Reply Bool
  pub linked : GpuNode Q → Node → Node
  pub pool_owned : GpuPool Q → GpuNode Q → GpuNode Q
  pub gpu_node_owned : Node → GpuNode Q → Reply (GpuNode Q)
  pub new_gpu_node : String → GpuNode Q
  pub now_text : History Q → String
