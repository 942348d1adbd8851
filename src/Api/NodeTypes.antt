-- ===== src/Api/NodeTypes.antt =====
-- `GPUNode`.
use tensor_fusion_operator.Prelude.{String}
use tensor_fusion_operator.Prelude.Int.{ℤ}
use tensor_fusion_operator.Api.Metadata.{ObjectMeta, Phase}

pub data GpuNodeManageMode : Type 0 where
  manual auto_select provisioned : GpuNodeManageMode

pub record GpuNodeSpec : Type 0 where
  pub manage_mode : GpuNodeManageMode
  pub cost_per_hour : String

pub record GpuNodeInfo (Q : Type 0) : Type 0 where
  pub instance_id : String
  pub region : String
  pub ip : String
  pub ram_size : Q
  pub data_disk_size : Q

pub record GpuNodeStatus (Q : Type 0) : Type 0 where
  pub kubernetes_node_name : String
  pub phase : Phase
  pub total_tflops : Q
  pub total_vram : Q
  pub virtual_tflops : Q
  pub virtual_vram : Q
  pub available_tflops : Q
  pub available_vram : Q
  pub node_info : GpuNodeInfo Q
  pub total_gpus : ℤ

pub record GpuNode (Q : Type 0) : Type 0 where
  pub meta : ObjectMeta
  pub spec : GpuNodeSpec
  pub status : GpuNodeStatus Q
