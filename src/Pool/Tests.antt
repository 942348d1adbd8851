-- ===== src/Pool/Tests.antt =====
-- The theorems of the pool at concrete inputs.
use tensor_fusion_operator.Prelude.{some, none, done, fail, not_found, List, [], ◌∷◌, ◌⊎◌}
use tensor_fusion_operator.Prelude.Int.{ℤ, pos}
use tensor_fusion_operator.Api.{CapacityConfig, GpuNode, GpuPoolStatus, Phase}
use tensor_fusion_operator.Samples.{plain_class, int_quantity, pool_in, node_in}
use tensor_fusion_operator.CloudProvider.Types.{NodeCreationParam, GpuNodeStatus}
use tensor_fusion_operator.Pool.World.{Env}
use tensor_fusion_operator.Pool.Gap.{Decides, decide, decide_lem}
use tensor_fusion_operator.Pool.Compaction.{compact_all}
use tensor_fusion_operator.Pool.Emptied.{Compacts, compact_all-Compacts}
use tensor_fusion_operator.Pool.Provision.{record_node}
use tensor_fusion_operator.Pool.Fates.{Left, Recorded, Terminated, record_node_fate}

abbrev config : CapacityConfig ℤ
config = record {
  min_resources = some (record { tflops = pos 9; vram = pos 2 });
  max_resources = some (record { tflops = pos 20; vram = pos 20 });
  warm_resources = none;
}

abbrev small : GpuPoolStatus ℤ
small = (pool_in "pool" Phase.running (pos 5)).status

decide_lem_example : Decides config small (decide config small)
decide_lem_example = decide_lem config small

abbrev nodes : List (GpuNode ℤ)
nodes = node_in "node-0" Phase.running (pos 5) ∷ node_in "node-1" Phase.pending (pos 7) ∷ []

-- A server without GPUNodes that accepts every change, and a vendor that terminates nodes.
abbrev pub env : Env ℤ ℤ
env = record {
  pool = λ h n. done (pool_in n Phase.running (pos 5));
  pool_status_patched = λ h p. done tt;
  nodes = λ h k v. done nodes;
  connections = λ h n. done 0;
  node = λ h n. fail not_found;
  gpu_node_created = λ h n. done n;
  node_status_updated = λ h n. done tt;
  node_status_patched = λ h n. done tt;
  gpu_node_updated = λ h n. done tt;
  gpu_node_deleted = λ h n. done tt;
  node_marked = λ h n. done tt;
  node_created = λ h p. done (record { instance_id = "i-0"; private_ip = "10.0.0.1" });
  node_terminated = λ h p. done tt;
  price = λ i r c. done (pos 1);
  format_float = λ x. "1";
  controlled_by = λ p n. n;
  new_node = λ n. node_in n Phase.pending (pos 0);
  now = λ h. pos 0;
}

compact_all-Compacts_example :
    Compacts env
      (pool_in "pool" Phase.running (pos 9))
      nodes
      []
      (compact_all env (pool_in "pool" Phase.running (pos 9)) nodes []).1
compact_all-Compacts_example =
    compact_all-Compacts env (pool_in "pool" Phase.running (pos 9)) nodes []

abbrev pub param : NodeCreationParam ℤ
param = record {
  node_name = "node-2";
  region = "region";
  zone = "zone";
  instance_type = "type";
  node_class = plain_class;
  capacity_type = "Spot";
  tflops_offered = pos 5;
  vram_offered = pos 5;
  gpu_device_offered = pos 1;
  extra_params = [];
}

abbrev bought : GpuNodeStatus
bought = record { instance_id = "i-0"; private_ip = "10.0.0.1" }

record_node_fate_example :
    Recorded env param bought []
      (record_node env param bought []).0
      (record_node env param bought []).1
    ⊎ (Terminated env param bought []
          (record_node env param bought []).0
          (record_node env param bought []).1
        ⊎ Left env param bought []
            (record_node env param bought []).0
            (record_node env param bought []).1)
record_node_fate_example = record_node_fate env param bought []
