-- ===== src/Cluster/World.antt =====
-- The calls of the cluster reconciler, and what answers them: the API server, the cloud provider
-- (GetProvider and TestConnection), and the library functions that compare, hash and own objects.
use tensor_fusion_operator.Prelude.{String, List, Reply, Bool, Dict, Error}
use tensor_fusion_operator.Api.{
  ComputingVendorConfig, GpuPool, GpuPoolSpec, TensorFusionCluster, TensorFusionClusterStatus,
}
use tensor_fusion_operator.Utils.Finalizer.{ControllerUtil, Object}
use tensor_fusion_operator.Cluster.Status.{SetCondition}

pub data Call (Q : Type 0) : Type 0 where
  get_cluster : String → Call Q
  update_cluster : TensorFusionCluster Q → Call Q
  patch_status : TensorFusionCluster Q → Call Q
  list_pools : String → Call Q
  create_pool : GpuPool Q → Call Q
  update_pool : GpuPool Q → Call Q
  delete_pool : GpuPool Q → Call Q
  get_provider : ComputingVendorConfig → Call Q
  test_connection : ComputingVendorConfig → Call Q
  event : String → Call Q

abbrev pub History : Type 0 → Type 0
History Q = List (Call Q)

-- `F` is the type of float64 values, for the random part of the retry delay.
pub record Env (Q F : Type 0) : Type 0 where
  pub cluster : History Q → String → Reply (TensorFusionCluster Q)
  pub cluster_updated : History Q → TensorFusionCluster Q → Reply (TensorFusionCluster Q)
  -- The answer of a patch is the cluster that the server has then.
  pub status_patched : History Q → TensorFusionCluster Q → Reply (TensorFusionCluster Q)
  pub pools : History Q → String → Reply (List (GpuPool Q))
  pub pool_created : History Q → GpuPool Q → Reply (Unit {0})
  pub pool_updated : History Q → GpuPool Q → Reply (GpuPool Q)
  pub pool_deleted : History Q → GpuPool Q → Reply (Unit {0})
  pub provider : History Q → ComputingVendorConfig → Reply (Unit {0})
  pub connected : History Q → ComputingVendorConfig → Reply (Unit {0})
  -- The entries of a map, in the order of a `range` over it.
  pub in_map_order : History Q → Dict (GpuPool Q) → Dict (GpuPool Q)
  pub random : History Q → F
  pub controlled_by : TensorFusionCluster Q → GpuPool Q → Reply (GpuPool Q)
  pub spec_equal : GpuPoolSpec Q → GpuPoolSpec Q → Bool
  pub status_equal : TensorFusionClusterStatus Q → TensorFusionClusterStatus Q → Bool
  pub hash : ComputingVendorConfig → String
  pub error_text : Error → String
  pub set_status_condition : SetCondition
  pub new_pool : String → GpuPool Q  -- a pool with no content but its name
  pub util : ControllerUtil

abbrev pub cluster_object : {Q : Type 0} → Object (TensorFusionCluster Q)
cluster_object = record { meta = λ c. c.meta; with_meta = λ c m. record c { meta = m } }
