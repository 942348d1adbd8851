-- ===== src/CloudProvider/Types.antt =====
-- internal/cloudprovider/types/type.go
use tensor_fusion_operator.Prelude.{String, List, Dict, Reply}
use tensor_fusion_operator.Prelude.Int.{ℤ}
use tensor_fusion_operator.Api.{GpuNodeClass}

abbrev pub capacity_type_spot : String
capacity_type_spot = "Spot"

pub record NodeCreationParam (Q : Type 0) : Type 0 where
  pub node_name : String
  pub region : String
  pub zone : String
  pub instance_type : String
  pub node_class : GpuNodeClass
  pub capacity_type : String
  pub tflops_offered : Q
  pub vram_offered : Q
  pub gpu_device_offered : ℤ
  pub extra_params : Dict String

-- `NodeIdentityParam`, and the parts of `GPUNodeStatus` that the operator reads.
pub record NodeIdentityParam : Type 0 where
  pub instance_id : String
  pub region : String

pub record GpuNodeStatus : Type 0 where
  pub instance_id : String
  pub private_ip : String

pub record GpuNodeInstanceInfo : Type 0 where
  pub instance_type : String
  pub fp16_tflops_per_gpu : ℤ
  pub vram_gigabytes_per_gpu : ℤ
  pub gpu_count : ℤ
  pub cpu_architecture : String
  pub gpu_architecture : String

-- The methods of `GPUNodeProvider` that the choice of nodes calls: the price of an instance type in a
-- region for a capacity type, and the instance types of a region.
pub record Catalogue (F : Type 0) : Type 0 where
  pub get_instance_pricing : String → String → String → Reply F
  pub get_gpu_node_instance_type_info : String → List GpuNodeInstanceInfo
