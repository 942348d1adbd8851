-- ===== src/Nodes/Reconcile.antt =====
-- `Reconcile`, `generateGPUNode`, `getMatchedPoolName`, and `SetAnnotationToTriggerNodeSync` of
-- api/v1/gpunode_funcs.go.
use tensor_fusion_operator.Prelude.{
  String, ◌<>◌, is_empty, label, insert, Bool, List, [], ◌∷◌, Option, none, some, Reply, done, fail,
  wrapped, is_not_found, Outcome, ok, err, panicked, Action, ◌>>=◌, ◌>>◌, raise, pure, check, ask,
  if◌then◌else◌,
}
use tensor_fusion_operator.Prelude.Int.{pos}
use tensor_fusion_operator.Quantity.{Quantity}
use tensor_fusion_operator.Api.{GpuNode, GpuNodeManageMode, GpuPool, Requeue, pool_identifier_label}
use tensor_fusion_operator.Pool.Provision.{initialize_status}
use tensor_fusion_operator.Nodes.World.{
  Env, History, Node, get_node, get_gpu_node, update_node, list_pools, delete_gpu_node,
  create_or_update, update_gpu_node, update_status,
}

abbrev pub provisioner_label_key : String
provisioner_label_key = "tensor-fusion.ai/node-provisioner"

abbrev pub refresh_annotation : String
refresh_annotation = "tensor-fusion.ai/refresh-node-state"

abbrev pub with_sync_annotation : {Q : Type 0} → String → GpuNode Q → GpuNode Q
with_sync_annotation now node =
    let m = node.meta in
    record node { meta = record m { annotations = insert refresh_annotation now m.annotations } }

abbrev pub on_kubernetes_node : {Q : Type 0} → String → GpuNode Q → GpuNode Q
on_kubernetes_node name node =
    let st = node.status in record node { status = record st { kubernetes_node_name = name } }

module _ {Q : Type 0} ⦃q : Quantity Q⦄ (env : Env Q) where
  -- One round of the loop; a nil node manager configuration is dereferenced.
  unfoldable pub match_one : Node → GpuPool Q → Outcome Bool
  match_one node pool = elim pool.spec.node_manager_config [
    | none ↦ panicked
    | some config ↦ elim (env.match_terms node config.node_selector) [
      | done b ↦ ok b
      | fail e ↦ err e
    ]
  ]

  unfoldable pub get_matched_pool_name : Node → List (GpuPool Q) → Outcome (Option (GpuPool Q))
  unfolding match_one
  get_matched_pool_name node [] = ok none
  get_matched_pool_name node (pool ∷ pools) =
      let rest = get_matched_pool_name node pools in
      elim (match_one node pool) [
        | ok b ↦ if b then ok (some pool) else rest
        | err e ↦ err e
        | panicked ↦ panicked
      ]

  unfoldable pub generate_gpu_node : Node → GpuPool Q → GpuNode Q
  generate_gpu_node node pool =
      let new = env.new_gpu_node node.meta.name in
      let m = new.meta in
      let s = new.spec in
      env.pool_owned pool (record new {
        meta = record m { labels = (pool_identifier_label <> pool.meta.name, "true") ∷ [] };
        spec = record s { manage_mode = GpuNodeManageMode.auto_select };
      })

  -- Provision mode.
  unfoldable pub link : Node → Action (History Q) Requeue
  link node = do
    let name = label provisioner_label_key node.meta.labels
    answer ← ask (λ h. env.gpu_node h name) (get_gpu_node name)
    gpu_node ← check (wrapped ("get gpuNode(" <> name <> ")")) answer
    let node' = env.linked gpu_node node
    updated ← ask (λ h. env.node_updated h node') (update_node node')
    check (wrapped ("can not update node(" <> node'.meta.name <> ") controller reference")) updated
    let gpu_node' = on_kubernetes_node node'.meta.name gpu_node
    stored ← ask (λ h. env.status_updated h gpu_node') (update_status gpu_node')
    check (wrapped ("can not update gpuNode(" <> gpu_node.meta.name <> ") status")) stored
    pure Requeue.stop

  -- The error NotFound of the deletion is no error.
  unfoldable pub drop_unmatched : Node → Action (History Q) Requeue
  drop_unmatched node = do
    deleted ← ask (λ h. env.gpu_node_deleted h node.meta.name) (delete_gpu_node node.meta.name)
    elim deleted [
      | done u ↦ pure Requeue.stop
      | fail e ↦
          if is_not_found e
          then pure Requeue.stop
          else raise (wrapped ("can not delete gpuNode(" <> node.meta.name <> ")") e)
    ]

  unfoldable pub create_gpu_node : Node → GpuPool Q → Action (History Q) (GpuNode Q)
  unfolding generate_gpu_node
  create_gpu_node node pool = do
    owned ←
        check (wrapped "failed to set controller reference")
          (env.gpu_node_owned node (generate_gpu_node node pool))
    ensured ← ask (λ h. env.gpu_node_ensured h owned) (create_or_update owned)
    check (wrapped "failed to create or patch GPUNode") ensured

  -- The annotation takes the time of the call.
  unfoldable pub trigger_sync : GpuNode Q → Action (History Q) (GpuNode Q)
  trigger_sync gpu_node h =
      let gpu_node' = with_sync_annotation (env.now_text h) gpu_node in
      let m = gpu_node'.meta in
      (do
        updated ← ask (λ h. env.gpu_node_updated h gpu_node') (update_gpu_node gpu_node')
        check (wrapped ("can not update gpuNode(" <> m.name <> ") annotation")) updated)
        h

  -- What the Get leaves in `gpuNode`: an error that is not NotFound leaves it empty and goes on.
  unfoldable pub ensure_gpu_node :
      Node → GpuPool Q → Reply (GpuNode Q) → Action (History Q) (GpuNode Q)
  unfolding create_gpu_node trigger_sync
  ensure_gpu_node node pool (done gpu_node) = trigger_sync gpu_node
  ensure_gpu_node node pool (fail e) =
      if is_not_found e then create_gpu_node node pool else pure (env.new_gpu_node "")

  unfoldable pub initialize : Node → GpuNode Q → Action (History Q) Requeue
  unfolding initialize_status
  initialize node gpu_node =
      let gpu_node' =
        on_kubernetes_node node.meta.name (initialize_status q.zero q.zero (pos 0) gpu_node) in
      if is_empty gpu_node.status.kubernetes_node_name
      then (do
        stored ← ask (λ h. env.status_updated h gpu_node') (update_status gpu_node')
        check
            (wrapped (
              "can not add Kubernetes Node info into gpuNode(" <> gpu_node.meta.name <> ") status"))
            stored
        pure Requeue.stop)
      else pure Requeue.stop

  unfoldable pub apply_match : Node → Outcome (Option (GpuPool Q)) → Action (History Q) Requeue
  unfolding drop_unmatched ensure_gpu_node initialize
  apply_match node (err e) = raise e
  apply_match node panicked = λ h. (panicked, h)
  apply_match node (ok none) = drop_unmatched node
  apply_match node (ok (some pool)) = do
    existing ← ask (λ h. env.gpu_node h node.meta.name) (get_gpu_node node.meta.name)
    gpu_node ← ensure_gpu_node node pool existing
    initialize node gpu_node

  -- Select mode.
  unfoldable pub select : Node → Action (History Q) Requeue
  unfolding apply_match get_matched_pool_name
  select node = do
    answer ← ask env.pools list_pools
    pools ← check (wrapped "can not list gpuPool") answer
    apply_match node (get_matched_pool_name node pools)

  unfoldable pub reconcile : String → Action (History Q) Requeue
  unfolding link select
  reconcile name = do
    answer ← ask (λ h. env.node h name) (get_node name)
    elim answer [
      | done node ↦
          if is_empty (label provisioner_label_key node.meta.labels) then select node else link node
      | fail e ↦ if is_not_found e then pure Requeue.stop else raise e
    ]
