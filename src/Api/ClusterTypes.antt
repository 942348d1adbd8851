-- ===== src/Api/ClusterTypes.antt =====
-- `TensorFusionCluster`.
use tensor_fusion_operator.Prelude.{String, List, Option, Bool, Dict}
use tensor_fusion_operator.Prelude.Int.{ℤ}
use tensor_fusion_operator.Api.Metadata.{ObjectMeta, Phase}
use tensor_fusion_operator.Api.PoolTypes.{GpuPoolSpec}

-- Kubernetes' `metav1.Condition`, less the times.
pub record Condition : Type 0 where
  pub type : String
  pub status : Bool
  pub reason : String
  pub message : String

pub record ComputingVendorParams : Type 0 where
  pub default_region : String
  pub access_key_path : String
  pub secret_key_path : String
  pub extra_params : Dict String

pub record ComputingVendorConfig : Type 0 where
  pub name : String
  pub type : String
  pub auth_type : String
  pub params : ComputingVendorParams

pub record GpuPoolDefinition (Q : Type 0) : Type 0 where
  pub name : String
  pub spec_template : GpuPoolSpec Q

pub record TensorFusionClusterSpec (Q : Type 0) : Type 0 where
  pub gpu_pools : List (GpuPoolDefinition Q)
  pub computing_vendor : Option ComputingVendorConfig

pub record TensorFusionClusterStatus (Q : Type 0) : Type 0 where
  pub phase : Phase
  pub conditions : List Condition
  pub total_pools : ℤ
  pub total_nodes : ℤ
  pub total_gpus : ℤ
  pub total_tflops : Q
  pub total_vram : Q
  pub available_tflops : Q
  pub available_vram : Q
  pub ready_gpu_pools : List String
  pub not_ready_gpu_pools : List String
  pub retry_count : ℤ
  pub cloud_vendor_config_hash : String

pub record TensorFusionCluster (Q : Type 0) : Type 0 where
  pub meta : ObjectMeta
  pub spec : TensorFusionClusterSpec Q
  pub status : TensorFusionClusterStatus Q
