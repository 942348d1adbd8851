-- ===== src/Api/GpuTypes.antt =====
-- `Resource`, `GPU` and `TensorFusionConnection`.
use tensor_fusion_operator.Prelude.{String, Dict, Option}
use tensor_fusion_operator.Api.Metadata.{ObjectMeta, Phase}

pub record Resource (Q : Type 0) : Type 0 where
  pub tflops : Q
  pub vram : Q

pub record Resources (Q : Type 0) : Type 0 where
  pub requests : Resource Q
  pub limits : Resource Q

pub record GpuStatus (Q : Type 0) : Type 0 where
  pub phase : Phase
  pub capacity : Option (Resource Q)
  pub available : Option (Resource Q)
  pub uuid : String
  pub node_selector : Dict String
  pub gpu_model : String
  pub message : String

pub record Gpu (Q : Type 0) : Type 0 where
  pub meta : ObjectMeta
  pub status : GpuStatus Q

pub data TensorFusionConnectionPhase : Type 0 where
  unset pending starting running : TensorFusionConnectionPhase

pub record TensorFusionConnectionSpec (Q : Type 0) : Type 0 where
  pub pool_name : String
  pub resources : Resources Q

-- `gpu` is the empty text until a GPU is allocated.
pub record TensorFusionConnectionStatus : Type 0 where
  pub phase : TensorFusionConnectionPhase
  pub connection_url : String
  pub qos_class : String
  pub gpu : String

pub record TensorFusionConnection (Q : Type 0) : Type 0 where
  pub meta : ObjectMeta
  pub spec : TensorFusionConnectionSpec Q
  pub status : TensorFusionConnectionStatus
