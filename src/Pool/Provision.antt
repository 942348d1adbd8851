-- ===== src/Pool/Provision.antt =====
-- The goroutine that creates one node, of `reconcilePoolCapacityWithProvisioner` in
-- gpupool_node_provision.go, and `InitializeStatus` of api/v1/gpunode_funcs.go.
use tensor_fusion_operator.Prelude.{
  String, ◌<>◌, [], ◌∷◌, done, fail, same_error, Action, ◌>>=◌, ◌>>◌, raise, panic, check, ask,
  emit,
}
use tensor_fusion_operator.Prelude.Int.{ℤ}
use tensor_fusion_operator.Quantity.{Quantity}
use tensor_fusion_operator.Api.{
  GpuNode, GpuNodeManageMode, GpuPool, Phase, label_key_owner, label_key_cluster_owner,
  label_key_node_class, pool_identifier_label,
}
use tensor_fusion_operator.CloudProvider.Types.{GpuNodeStatus, NodeCreationParam, NodeIdentityParam}
use tensor_fusion_operator.Pool.World.{
  Env, History, get_node, create_gpu_node, update_node_status, patch_node_status, create_node,
  terminate_node, event,
}

module _ {Q : Type 0} ⦃q : Quantity Q⦄ where
  -- Every other field gets its zero value.
  unfoldable pub initialize_status : Q → Q → ℤ → GpuNode Q → GpuNode Q
  initialize_status init_tflops init_vram init_gpus node = record node {
    status = record {
      kubernetes_node_name = "";
      phase = Phase.pending;
      total_tflops = init_tflops;
      total_vram = init_vram;
      virtual_tflops = q.zero;
      virtual_vram = q.zero;
      available_tflops = q.zero;
      available_vram = q.zero;
      node_info = record {
        instance_id = "";
        region = "";
        ip = "";
        ram_size = q.zero;
        data_disk_size = q.zero;
      };
      total_gpus = init_gpus;
    };
  }

  -- The vendor's answer goes to the status.
  abbrev pub with_info : GpuNodeStatus → NodeCreationParam Q → GpuNode Q → GpuNode Q
  with_info status param node =
      let st = node.status in
      let info = st.node_info in
      record node {
        status = record st {
          node_info = record info {
            ip = status.private_ip;
            instance_id = status.instance_id;
            region = param.region;
          };
        };
      }

  abbrev pub identity : GpuNodeStatus → NodeCreationParam Q → NodeIdentityParam
  identity status param = record { instance_id = status.instance_id; region = param.region }

module _ {Q F : Type 0} ⦃q : Quantity Q⦄ (env : Env Q F) where
  abbrev Handler : Type 0 → Type 0
  Handler A = Action (History Q) A

  -- The status could not be patched: the vendor's node is terminated, and it is a panic if that fails.
  unfoldable pub undo :
      NodeCreationParam Q → GpuNodeStatus → Handler (Unit {0}) → Handler (Unit {0})
  undo param status give_up = do
    answer ←
        ask (λ h. env.node_terminated h (identity status param))
          (terminate_node (identity status param))
    elim answer [ fail e ↦ panic | done u ↦ give_up ]

  unfoldable pub store : NodeCreationParam Q → GpuNodeStatus → GpuNode Q → Handler (Unit {0})
  unfolding undo
  store param status node = do
    patched ←
        ask (λ h. env.node_status_patched h (with_info status param node))
          (patch_node_status (with_info status param node))
    elim patched [ done u ↦ emit (event "GPUNodeCreated") | fail e ↦ undo param status (raise e) ]

  -- What follows on the creation at the vendor.
  unfoldable pub record_node : NodeCreationParam Q → GpuNodeStatus → Handler (Unit {0})
  unfolding store
  record_node param status = do
    found ← ask (λ h. env.node h param.node_name) (get_node param.node_name)
    node ← check same_error found
    store param status node

module _ {Q F : Type 0} ⦃q : Quantity Q⦄ (env : Env Q F) (pool : GpuPool Q)
    (cluster_name node_class : String) where
  unfoldable pub new_gpu_node : NodeCreationParam Q → F → GpuNode Q
  new_gpu_node param cost_per_hour =
      let node = env.new_node param.node_name in
      let m = node.meta in
      env.controlled_by pool (record node {
        meta = record m {
          labels =
              (label_key_owner, pool.meta.name)
              ∷ (label_key_cluster_owner, cluster_name)
              ∷ (label_key_node_class, node_class)
              ∷ (pool_identifier_label <> pool.meta.name, pool.meta.name)
              ∷ [];
        };
        spec = record {
          manage_mode = GpuNodeManageMode.provisioned;
          cost_per_hour = env.format_float cost_per_hour;
        };
      })

  -- An error is what the goroutine appends to `errList`.
  unfoldable pub provision_node : NodeCreationParam Q → Action (History Q) (Unit {0})
  unfolding new_gpu_node initialize_status record_node
  provision_node param = do
    cost_per_hour ←
        check same_error (env.price param.instance_type param.region param.capacity_type)
    created ←
        ask (λ h. env.gpu_node_created h (new_gpu_node param cost_per_hour))
          (create_gpu_node (new_gpu_node param cost_per_hour))
    node ← check same_error created
    let node' =
        initialize_status param.tflops_offered param.vram_offered param.gpu_device_offered node
    updated ← ask (λ h. env.node_status_updated h node') (update_node_status node')
    check same_error updated
    bought ← ask (λ h. env.node_created h param) (create_node param)
    status ← check same_error bought
    record_node env param status
