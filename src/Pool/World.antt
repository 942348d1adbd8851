-- ===== src/Pool/World.antt =====
-- The calls that the pool's controllers make and what answers them.
use tensor_fusion_operator.Prelude.{String, List, Reply, ℕ}
use tensor_fusion_operator.Prelude.Int.{ℤ}
use tensor_fusion_operator.Api.{GpuNode, GpuPool}
use tensor_fusion_operator.CloudProvider.Types.{GpuNodeStatus, NodeCreationParam, NodeIdentityParam}

-- `list_nodes k v` lists the GPUNodes with the label `k` of value `v`; `mark_node` is the patch of the
-- Kubernetes node with the deletion mark.
pub data Call (Q : Type 0) : Type 0 where
  get_pool : String → Call Q
  patch_pool_status : GpuPool Q → Call Q
  list_nodes : String → String → Call Q
  list_connections : String → Call Q
  get_node : String → Call Q
  create_gpu_node : GpuNode Q → Call Q
  update_node_status : GpuNode Q → Call Q
  patch_node_status : GpuNode Q → Call Q
  update_gpu_node : GpuNode Q → Call Q
  delete_gpu_node : GpuNode Q → Call Q
  mark_node : String → Call Q
  create_node : NodeCreationParam Q → Call Q
  terminate_node : NodeIdentityParam → Call Q
  event : String → Call Q

abbrev pub History : Type 0 → Type 0
History Q = List (Call Q)

-- `F` is the type of float64 values, for the price.
pub record Env (Q F : Type 0) : Type 0 where
  pub pool : History Q → String → Reply (GpuPool Q)
  pub pool_status_patched : History Q → GpuPool Q → Reply (Unit {0})
  pub nodes : History Q → String → String → Reply (List (GpuNode Q))
  pub connections : History Q → String → Reply ℕ  -- how many there are
  pub node : History Q → String → Reply (GpuNode Q)
  pub gpu_node_created : History Q → GpuNode Q → Reply (GpuNode Q)
  pub node_status_updated : History Q → GpuNode Q → Reply (Unit {0})
  pub node_status_patched : History Q → GpuNode Q → Reply (Unit {0})
  pub gpu_node_updated : History Q → GpuNode Q → Reply (Unit {0})
  pub gpu_node_deleted : History Q → GpuNode Q → Reply (Unit {0})
  pub node_marked : History Q → String → Reply (Unit {0})
  pub node_created : History Q → NodeCreationParam Q → Reply GpuNodeStatus
  pub node_terminated : History Q → NodeIdentityParam → Reply (Unit {0})
  pub price : String → String → String → Reply F
  pub format_float : F → String
  pub controlled_by : GpuPool Q → GpuNode Q → GpuNode Q
  pub new_node : String → GpuNode Q  -- a node with no content but its name
  pub now : History Q → ℤ
