-- ===== src/NodeDiscovery/World.antt =====
-- The calls of the discovery job and what answers them. `D` is NVML's type of device handles.
use tensor_fusion_operator.Prelude.{String, List, Option, Reply, ℕ}
use tensor_fusion_operator.Api.{Gpu, GpuNode}

-- `GpuInfo`, less the price.
pub record GpuInfo (Q : Type 0) : Type 0 where
  pub model : String
  pub vendor : String
  pub fp16_tflops : Q
  pub full_model_name : String

pub data Call (Q D : Type 0) : Type 0 where
  kube_client : Call Q D
  read_file : String → Call Q D
  init : Call Q D
  shutdown : Call Q D
  device_get_count : Call Q D
  get_gpu_node : String → Call Q D
  device_get_handle : ℕ → Call Q D
  get_uuid : D → Call Q D
  get_name : D → Call Q D
  get_memory_info : D → Call Q D
  create_or_update : Gpu Q → Call Q D
  patch_gpu_status : Gpu Q → Call Q D
  patch_node_status : GpuNode Q → Call Q D

abbrev pub History : Type 0 → Type 0 → Type 0
History Q D = List (Call Q D)

-- The memory is a number of bytes. `ki n` is the quantity that `MustParse` makes of the decimal
-- digits of `n` and "Ki"; `new_gpu` and `new_node` have no content but their names; `hostname_flag` is
-- the value of the flag -hostname, where it is given.
pub record Env (Q D : Type 0) : Type 0 where
  pub client : History Q D → Reply (Unit {0})
  pub file : History Q D → String → Reply String
  pub unmarshal : String → Reply (List (GpuInfo Q))
  pub nvml_started : History Q D → Reply (Unit {0})
  pub nvml_stopped : History Q D → Reply (Unit {0})
  pub device_count : History Q D → Reply ℕ
  pub gpu_node : History Q D → String → Reply (GpuNode Q)
  pub handle : History Q D → ℕ → Reply D
  pub uuid : History Q D → D → Reply String
  pub device_name : History Q D → D → Reply String
  pub memory : History Q D → D → Reply ℕ
  pub gpu_ensured : History Q D → Gpu Q → Reply (Gpu Q)
  -- The answer of the patch is the GPU that the server has then.
  pub gpu_patched : History Q D → Gpu Q → Reply (Gpu Q)
  pub node_patched : History Q D → GpuNode Q → Reply (Unit {0})
  pub controlled_by : GpuNode Q → Gpu Q → Reply (Gpu Q)
  pub new_gpu : String → Gpu Q
  pub to_lower : String → String
  pub ki : ℕ → Q
  pub hostname_env : String
  pub report_gpu_node_env : String
  pub hostname_flag : Option String
  pub gpu_info_config : String
