-- ===== src/GpuNodes/Reconcile.antt =====
-- `Reconcile`, with the deletion hook.
use tensor_fusion_operator.Prelude.{
  String, ◌<>◌, is_empty, label, cut_prefix, Dict, [], ◌∷◌, Option, none, some, Reply, done, fail,
  failed, wrapped, same_error, is_not_found, Action, ◌>>=◌, ◌>>◌, raise, pure, check, ask,
  if◌then◌else◌,
}
use tensor_fusion_operator.Prelude.Int.{pos}
use tensor_fusion_operator.Api.{
  GpuNode, GpuNodeManageMode, GpuPool, ComputingVendorConfig, NamespacedName, Phase, Pod, Requeue,
  is_pod_running, label_key_cluster_owner, pool_identifier_label,
}
use tensor_fusion_operator.Utils.Finalizer.{handle_finalizer}
use tensor_fusion_operator.CloudProvider.Types.{NodeIdentityParam}
use tensor_fusion_operator.GpuNodes.World.{
  Env, History, gpu_node_object, get_gpu_node, update_gpu_node, get_cluster, get_provider,
  terminate_node, get_pool, get_pod, update_status,
}
use tensor_fusion_operator.GpuNodes.Discovery.{reconcile_node_discovery_job}
use tensor_fusion_operator.GpuNodes.Hypervisor.{reconcile_hypervisor_pod}

abbrev pub name_or : Option String → String → String
name_or none rest = rest
name_or (some name) rest = name

-- The name after the prefix of the first label that has it; no such label is the empty name.
abbrev pub pool_name_of : Dict String → String
pool_name_of [] = ""
pool_name_of ((key, v) ∷ labels) =
    name_or (cut_prefix key pool_identifier_label) (pool_name_of labels)

abbrev pub identity : {Q : Type 0} → GpuNode Q → NodeIdentityParam
identity node =
    let info = node.status.node_info in
    record { instance_id = info.instance_id; region = info.region }

module _ {Q : Type 0} (env : Env Q) where
  unfoldable pub terminate_at :
      GpuNode Q → Option ComputingVendorConfig → Action (History Q) (Unit {0})
  terminate_at node none = raise (
      failed (
        "failed to get computing vendor config for cluster "
        <> label label_key_cluster_owner node.meta.labels))
  terminate_at node (some vendor) = do
    provider ← ask (λ h. env.provider h vendor) (get_provider vendor)
    check same_error provider
    (let info = node.status.node_info in
        let id = identity node in
        if is_empty info.instance_id
        then raise (
            failed (
              "provisioned node without instanceID, this could result in orphaned nodes, please check manually: "
              <> node.meta.name))
        else (do
          gone ← ask (λ h. env.node_terminated h id) (terminate_node id)
          check same_error gone))

  unfoldable pub terminate_provisioned : GpuNode Q → Action (History Q) (Unit {0})
  unfolding terminate_at
  terminate_provisioned node = do
    let name = label label_key_cluster_owner node.meta.labels
    answer ← ask (λ h. env.cluster h name) (get_cluster name)
    cluster ← check same_error answer
    terminate_at node cluster.spec.computing_vendor

  -- The function that `HandleFinalizer` gets.
  unfoldable pub delete_hook : GpuNode Q → Action (History Q) (Unit {0})
  unfolding terminate_provisioned
  delete_hook node = elim node.spec.manage_mode [
    | GpuNodeManageMode.manual ↦ pure tt
    | GpuNodeManageMode.auto_select ↦ pure tt
    | GpuNodeManageMode.provisioned ↦ terminate_provisioned node
  ]

  abbrev pub in_phase : Phase → GpuNode Q → GpuNode Q
  in_phase phase node = let st = node.status in record node { status = record st { phase = phase } }

  unfoldable pub store_phase : GpuNode Q → Phase → Requeue → Action (History Q) Requeue
  store_phase node phase result = do
    let node' = in_phase phase node
    stored ← ask (λ h. env.status_updated h node') (update_status node')
    check (wrapped "failed to update GPU node status") stored
    pure result

  unfoldable pub report_phase : GpuNode Q → Pod → Action (History Q) Requeue
  unfolding store_phase
  report_phase node pod =
      if is_pod_running pod.status.phase
      then store_phase node Phase.running Requeue.stop
      else store_phase node Phase.pending (Requeue.after (pos 5_000_000_000))

  -- The phase follows the hypervisor pod.
  unfoldable pub observe : GpuNode Q → String → Action (History Q) Requeue
  unfolding report_phase
  observe node name = do
    let key : NamespacedName = record { name = name; namespace = env.namespace }
    answer ← ask (λ h. env.pod h key) (get_pod key)
    pod ← check (wrapped "failed to get hypervisor pod") answer
    report_phase node pod

  unfoldable pub reconcile_components : GpuNode Q → GpuPool Q → Action (History Q) Requeue
  unfolding observe
  reconcile_components node pool = do
    reconcile_node_discovery_job env node pool
    name ← reconcile_hypervisor_pod env node pool
    observe node name

  -- The error of the Get is replaced by a text.
  unfoldable pub with_pool : GpuNode Q → String → Action (History Q) Requeue
  unfolding reconcile_components
  with_pool node name = do
    answer ← ask (λ h. env.pool h name) (get_pool name)
    pool ←
        check
          (λ e.
            failed (
              "failed to get tensor-fusion pool, can not create node discovery job, pool: "
              <> name))
          answer
    reconcile_components node pool

  unfoldable pub reconcile_kept : GpuNode Q → Action (History Q) Requeue
  unfolding with_pool
  reconcile_kept node h =
      let name = pool_name_of (env.label_order h node.meta.labels) in
      if is_empty node.status.kubernetes_node_name
      then pure (Requeue.after (pos 10_000_000_000)) h
      else (if is_empty name then pure Requeue.stop h else with_pool node name h)

  abbrev pub update : GpuNode Q → Action (History Q) (Reply (GpuNode Q))
  update node = ask (λ h. env.gpu_node_updated h node) (update_gpu_node node)

  unfoldable pub reconcile_found : GpuNode Q → Action (History Q) Requeue
  unfolding delete_hook reconcile_kept
  reconcile_found found = do
    (deleted, node) ← handle_finalizer env.util gpu_node_object update delete_hook found
    (if deleted then pure Requeue.stop else reconcile_kept node)

  unfoldable pub reconcile : String → Action (History Q) Requeue
  unfolding reconcile_found
  reconcile name = do
    answer ← ask (λ h. env.gpu_node h name) (get_gpu_node name)
    elim answer [
      | done node ↦ reconcile_found node
      | fail e ↦ if is_not_found e then pure Requeue.stop else raise e
    ]
