-- ===== src/Cluster/Reconcile.antt =====
-- `Reconcile` of internal/controller/tensorfusioncluster_controller.go and the methods it calls.
use tensor_fusion_operator.Prelude.{
  Reply, String, ◌==◌, is_empty, Bool, true, false, not, ◌||◌, List, [], ◌∷◌, all, length, Option,
  none, some, eqb, if◌then◌else◌, ok, wrapped, Error, done, fail, is_not_found, same_error, Action,
  ◌>>=◌, ◌>>◌, pure, raise, check, ask, emit,
}
use tensor_fusion_operator.Prelude.Int.{pos, ◌+ℤ◌, int64}
use tensor_fusion_operator.Quantity.{Quantity}
use tensor_fusion_operator.Float.{Float}
use tensor_fusion_operator.Api.{
  Requeue, ComputingVendorConfig, Condition, GpuPool, TensorFusionCluster,
  TensorFusionClusterStatus, is_running, is_updating, is_unset_or_unknown,
}
use tensor_fusion_operator.Utils.Backoff.{calculate_exponential_backoff_with_jitter}
use tensor_fusion_operator.Utils.Finalizer.{handle_finalizer}
use tensor_fusion_operator.Cluster.Status.{
  set_as_pending, set_as_ready, set_as_updating, refresh_status, with_status,
}
use tensor_fusion_operator.Cluster.World.{
  get_cluster, update_cluster, patch_status, list_pools, get_provider, test_connection, event,
  History, Env, cluster_object,
}
use tensor_fusion_operator.Cluster.Pools.{reconcile_gpu_pool}

abbrev pub cloud_connection : Bool → String → String → Condition
cloud_connection status reason message = record {
  type = "CloudVendorConnectionReady";
  status = status;
  reason = reason;
  message = message;
}

abbrev pub component_conditions : Bool → List Condition
component_conditions pools_ready =
    record { type = "GPUPoolReady"; status = pools_ready; reason = ""; message = "" }
    ∷ record { type = "TimeSeriesDatabaseReady"; status = true; reason = ""; message = "" }
    ∷ []

module _ {Q F : Type 0} ⦃q : Quantity Q⦄ ⦃f : Float F⦄ (env : Env Q F) where
  abbrev Handler : Type 0 → Type 0
  Handler A = Action (History Q) A

  abbrev pub same_as : TensorFusionClusterStatus Q → Option (TensorFusionClusterStatus Q) → Bool
  same_as status none = false
  same_as status (some prev) = env.status_equal status prev

  -- The patch writes the server's answer over the cluster that was sent.
  abbrev pub after_patch : Reply (TensorFusionCluster Q) → Handler (TensorFusionCluster Q)
  after_patch (done stored) = pure stored
  after_patch (fail e) = emit (event "UpdateClusterStatusError") >> raise e

  -- Without a previous status the patch is always sent. The answer is what the cluster is afterwards.
  unfoldable pub update_tf_cluster_status :
      TensorFusionCluster Q → Option (TensorFusionClusterStatus Q) → Handler (TensorFusionCluster Q)
  update_tf_cluster_status tfc prev_status =
      if same_as tfc.status prev_status
      then pure tfc
      else ask (λ h. env.status_patched h tfc) (patch_status tfc) >>= after_patch

  abbrev then_requeue : Requeue → TensorFusionCluster Q → Handler Requeue
  then_requeue requeue tfc = pure requeue

  unfoldable pub must_list_owned_gpu_pools : TensorFusionCluster Q → Handler (List (GpuPool Q))
  must_list_owned_gpu_pools tfc = do
    listed ← ask (λ h. env.pools h tfc.meta.name) (list_pools tfc.meta.name)
    check same_error listed

  reconcile_time_series_database : TensorFusionCluster Q → Handler Bool
  reconcile_time_series_database tfc = pure false

  -- The provider accepted the configuration, whose hash is stored.
  abbrev connected : TensorFusionCluster Q → String → TensorFusionCluster Q
  connected tfc cfg_hash =
      let st = tfc.status in
      with_status tfc (record st {
        cloud_vendor_config_hash = cfg_hash;
        conditions =
            (env.set_status_condition st.conditions
              (cloud_connection true "CloudVendorConnectionOK" "")).0;
      })

  -- The connection test failed: the status says so, and the error is returned once it is stored.
  abbrev refused : TensorFusionCluster Q → Error → Handler (Bool × TensorFusionCluster Q)
  refused tfc e =
      let tfc' =
        (set_as_updating env.set_status_condition
          (cloud_connection false "CloudVendorConnectionFailed" (env.error_text e) ∷ []) tfc).0 in
      update_tf_cluster_status tfc' none >>= λ _. raise e

  unfoldable pub test_vendor :
      TensorFusionCluster Q → ComputingVendorConfig → Handler (Bool × TensorFusionCluster Q)
  unfolding update_tf_cluster_status
  test_vendor tfc vendor = do
    provider ← ask (λ h. env.provider h vendor) (get_provider vendor)
    check same_error provider
    tested ← ask (λ h. env.connected h vendor) (test_connection vendor)
    elim tested [ fail e ↦ refused tfc e | done u ↦ pure (true, connected tfc (env.hash vendor)) ]

  -- The answer is whether the connection changed, and the cluster with its new status.
  unfoldable pub reconcile_cloud_vendor_connection :
      TensorFusionCluster Q → Handler (Bool × TensorFusionCluster Q)
  unfolding test_vendor
  reconcile_cloud_vendor_connection tfc = elim tfc.spec.computing_vendor [
    | none ↦ pure (false, tfc)
    | some vendor ↦
        let known = tfc.status.cloud_vendor_config_hash in
        if is_empty vendor.type
        then pure (false, tfc)
        else (if is_empty known || not (known == env.hash vendor)
            then test_vendor tfc vendor
            else pure (false, tfc))
  ]

  abbrev pub pools_ready : TensorFusionCluster Q → List (GpuPool Q) → Bool
  pools_ready tfc pools =
      if eqb (length pools) (length tfc.spec.gpu_pools)
      then all (λ (p : GpuPool Q). is_running p.status.phase) pools
      else false

  -- The answer of `checkTFClusterComponentsReady`, with the pools that were listed.
  abbrev pub judged :
      TensorFusionCluster Q → Reply (List (GpuPool Q)) → Handler (Bool × List Condition)
  judged tfc (done pools) =
      pure (pools_ready tfc pools, component_conditions (pools_ready tfc pools))
  judged tfc (fail e) =
      emit (event "CheckComponentStatusError") >> raise (wrapped "failed to list GPUPools" e)

  unfoldable pub check_tf_cluster_components_ready :
      TensorFusionCluster Q → Handler (Bool × List Condition)
  check_tf_cluster_components_ready tfc =
      ask (λ h. env.pools h tfc.meta.name) (list_pools tfc.meta.name) >>= judged tfc

  -- The pools are listed; then `SetAsReady`, `RefreshStatus` and the patch.
  unfoldable pub settle :
      TensorFusionClusterStatus Q → List Condition → TensorFusionCluster Q → Handler Requeue
  unfolding update_tf_cluster_status must_list_owned_gpu_pools
  settle original conditions tfc = do
    pools ← must_list_owned_gpu_pools tfc
    let tfc' = (set_as_ready env.set_status_condition conditions tfc).0
    status ← (λ h. (refresh_status pools tfc', h))
    stored ← update_tf_cluster_status (with_status tfc' status) (some original)
    pure Requeue.stop

  abbrev pub retried : TensorFusionCluster Q → TensorFusionCluster Q
  retried tfc =
      let st = tfc.status in
      with_status tfc (record st { retry_count = int64 (st.retry_count +ℤ pos 1) })

  -- The delay follows the retry count of the cluster after the update.
  abbrev pub retry_later : TensorFusionCluster Q → Handler Requeue
  retry_later tfc h = (
    ok (
        Requeue.after
          (calculate_exponential_backoff_with_jitter (env.random h) tfc.status.retry_count)),
    h,
  )

  unfoldable pub wait_for_components :
      TensorFusionClusterStatus Q → List Condition → TensorFusionCluster Q → Handler Requeue
  unfolding update_tf_cluster_status
  wait_for_components original conditions tfc =
      let tfc' = (set_as_updating env.set_status_condition conditions (retried tfc)).0 in
      update_tf_cluster_status tfc' (some original) >>= retry_later

  abbrev pub without_retries : TensorFusionCluster Q → TensorFusionCluster Q
  without_retries tfc = let st = tfc.status in with_status tfc (record st { retry_count = pos 0 })

  abbrev pub after_check :
      TensorFusionClusterStatus Q → TensorFusionCluster Q → Bool × List Condition → Handler Requeue
  after_check original tfc (ready, conditions) =
      if ready
      then settle original conditions (without_retries tfc)
      else wait_for_components original conditions tfc

  unfoldable pub check_updating :
      TensorFusionClusterStatus Q → TensorFusionCluster Q → Handler Requeue
  unfolding check_tf_cluster_components_ready settle wait_for_components
  check_updating original tfc = check_tf_cluster_components_ready tfc >>= after_check original tfc

  abbrev updating_if : Bool → TensorFusionCluster Q → TensorFusionCluster Q
  updating_if changed tfc =
      if changed then (set_as_updating env.set_status_condition [] tfc).0 else tfc

  -- The part of `Reconcile` after the phase has been set.
  unfoldable pub reconcile_components :
      TensorFusionClusterStatus Q → TensorFusionCluster Q → Handler Requeue
  unfolding reconcile_time_series_database reconcile_cloud_vendor_connection check_updating settle
      update_tf_cluster_status
  reconcile_components original tfc₀ = do
    pool_changed ← reconcile_gpu_pool env tfc₀
    let tfc₁ = updating_if pool_changed tfc₀
    tsdb_changed ← reconcile_time_series_database tfc₁
    let tfc₂ = updating_if tsdb_changed tfc₁
    (cloud_changed, tfc₃) ← reconcile_cloud_vendor_connection tfc₂
    let tfc₄ = updating_if cloud_changed tfc₃
    (if pool_changed || tsdb_changed || cloud_changed
        then update_tf_cluster_status tfc₄ (some original)
          >>= then_requeue (Requeue.after (pos 3_000_000_000))
        else (if is_updating tfc₄.status.phase
            then check_updating original tfc₄
            else settle original [] tfc₄))

  -- `original` is the copy of the status that was read.
  unfoldable pub reconcile_found : TensorFusionCluster Q → Handler Requeue
  unfolding reconcile_components update_tf_cluster_status
  reconcile_found found = do
    (deleted, tfc) ←
        handle_finalizer env.util cluster_object
          (λ (c : TensorFusionCluster Q). ask (λ h. env.cluster_updated h c) (update_cluster c))
          (λ c. pure tt) found
    (if deleted
        then pure Requeue.stop
        else (if is_unset_or_unknown tfc.status.phase
            then update_tf_cluster_status (set_as_pending env.set_status_condition tfc)
                (some found.status)
              >>= then_requeue Requeue.again
            else reconcile_components found.status tfc))

  unfoldable pub reconcile : String → Handler Requeue
  unfolding reconcile_found
  reconcile name = do
    answer ← ask (λ h. env.cluster h name) (get_cluster name)
    elim answer [
      | fail e ↦ if is_not_found e then pure Requeue.stop else raise e
      | done tfc ↦ reconcile_found tfc
    ]
