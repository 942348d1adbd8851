-- ===== src/Cluster/Ready.antt =====
-- When a cluster that is being updated becomes `Running`.
use tensor_fusion_operator.Prelude.{
  String, Bool, true, false, List, [], ◌∷◌, Option, some, Reply, done, fail, same_error, ◌≡◌, refl,
  inl, inr, Bool-cases, Action, arith, same, more, Since, Since-trans, All, all, length, eqb, Only,
  >>=-Only, ask-Only, check-Only, ask, check, pure, ◌>>=◌,
}
use tensor_fusion_operator.Api.{
  Condition, GpuPool, Phase, Requeue, TensorFusionCluster, TensorFusionClusterStatus, is_running,
}
use tensor_fusion_operator.Cluster.Status.{
  SetCondition, set_ready, set_conditions, set_as_ready, set_as_updating, refresh_status,
  with_status,
}
use tensor_fusion_operator.Cluster.World.{Call, patch_status, list_pools, event, History, Env}
use tensor_fusion_operator.Cluster.Reconcile.{
  after_check, after_patch, check_tf_cluster_components_ready, check_updating, component_conditions,
  judged, must_list_owned_gpu_pools, pools_ready, retried, retry_later, same_as, settle,
  update_tf_cluster_status, wait_for_components, without_retries,
}
use tensor_fusion_operator.Quantity.{Quantity}
use tensor_fusion_operator.Float.{Float}

module _ {Q : Type 0} (set : SetCondition) where
  set_conditions-phase :
      (default : String) (conditions : List Condition) (tfc : TensorFusionCluster Q)
      (changed : Bool)
      → (set_conditions set default conditions (tfc, changed)).0.status.phase ≡ tfc.status.phase
  unfolding set_conditions
  set_conditions-phase default [] tfc changed = refl
  set_conditions-phase default (c ∷ rest) tfc changed = set_conditions-phase default rest _ _

  set_as_updating-phase :
      (conditions : List Condition) (tfc : TensorFusionCluster Q)
      → (set_as_updating set conditions tfc).0.status.phase ≡ Phase.updating
  unfolding set_as_updating set_ready
  set_as_updating-phase conditions tfc = set_conditions-phase "StillChecking" conditions _ _

still_updating : {phase : Phase} → phase ≡ Phase.updating → is_running phase ≡ true → ⊥
still_updating h up = absurd (ground arith)

module _ {Q F : Type 0} ⦃q : Quantity Q⦄ ⦃f : Float F⦄ (env : Env Q F) where
  -- A listing of the cluster's pools after the calls `at` gives as many as its spec has, all running.
  pub record AllRan (tfc : TensorFusionCluster Q) (at : History Q) : Type 0 where
    pub pools : List (GpuPool Q)
    pub listed : env.pools at tfc.meta.name ≡ done pools
    pub as_many : length pools ≡ length tfc.spec.gpu_pools
    pub running : All (λ (p : GpuPool Q). is_running p.status.phase ≡ true) pools

  -- A call sets the phase `Running` only for a cluster whose pools all ran at that point.
  abbrev pub Earned : TensorFusionCluster Q → History Q → Call Q → Type 0
  Earned tfc at (patch_status c) = is_running c.status.phase ≡ true → AllRan tfc at
  Earned tfc at _ = Unit

  all_running :
      (pools : List (GpuPool Q))
      → all (λ (p : GpuPool Q). is_running p.status.phase) pools ≡ true
      → All (λ (p : GpuPool Q). is_running p.status.phase ≡ true) pools
  all_running [] h = tt
  all_running (p ∷ pools) h = elim (Bool-cases (is_running p.status.phase)) [
    | inl up ↦ (up, all_running pools (rw up at h))
    | inr down ↦ absurd (not_both (rw down at h))
  ]
    where
      not_both : false ≡ true → ⊥
      not_both e = cc

  ready-AllRan :
      (tfc : TensorFusionCluster Q) (at : History Q) (pools : List (GpuPool Q))
      → env.pools at tfc.meta.name ≡ done pools
      → pools_ready env tfc pools ≡ true
      → AllRan tfc at
  ready-AllRan tfc at pools listed ready =
      elim (Bool-cases (eqb (length pools) (length tfc.spec.gpu_pools))) [
        | inl same_length ↦ record {
          pools = pools;
          listed = listed;
          as_many = ground arith;
          running = all_running pools (rw same_length at ready);
        }
        | inr other ↦ absurd (not_both (rw other at ready))
      ]
    where
      not_both : false ≡ true → ⊥
      not_both e = cc

  module _ (tfc : TensorFusionCluster Q) (at : History Q) where
    after_patch-Only :
        (r : Reply (TensorFusionCluster Q)) → Only (Earned tfc at) (after_patch env r)
    after_patch-Only (done c) h = same
    after_patch-Only (fail e) h = more (event "UpdateClusterStatusError") tt same

    update-Only :
        (c : TensorFusionCluster Q) (prev : Option (TensorFusionClusterStatus Q))
        → Earned tfc at (patch_status c)
        → Only (Earned tfc at) (update_tf_cluster_status env c prev)
    unfolding update_tf_cluster_status
    update-Only c prev p h = elim (Bool-cases (same_as env c.status prev)) [
      | inl equal ↦ rw (update_tf_cluster_status, equal) same
      | inr differs ↦
          rw (update_tf_cluster_status, differs)
            (>>=-Only (Earned tfc at) (ask (λ g. env.status_patched g c) (patch_status c))
              (after_patch env)
              (ask-Only (Earned tfc at) (λ g. env.status_patched g c) (patch_status c) p)
              after_patch-Only h)
    ]

    wait-Only :
        (original : TensorFusionClusterStatus Q) (conditions : List Condition)
        → Only (Earned tfc at) (wait_for_components env original conditions tfc)
    unfolding wait_for_components
    wait-Only original conditions =
        let tfc' = (set_as_updating env.set_status_condition conditions (retried env tfc)).0 in
        >>=-Only (Earned tfc at) (update_tf_cluster_status env tfc' (some original))
          (retry_later env)
          (update-Only tfc' (some original) (λ up. absurd (
            still_updating
              (set_as_updating-phase env.set_status_condition conditions (retried env tfc)) up)))
          (λ c h. same)

    refreshed :
        TensorFusionClusterStatus Q
        → TensorFusionCluster Q
        → List (GpuPool Q)
        → Action (History Q) Requeue
    refreshed original tfc' pools = (λ h. (refresh_status pools tfc', h)) >>= λ status.
        update_tf_cluster_status env (with_status tfc' status) (some original) >>= λ _.
        pure Requeue.stop

    settle-Only :
        AllRan tfc at
        → (original : TensorFusionClusterStatus Q) (conditions : List Condition)
          (tfc' : TensorFusionCluster Q)
        → Only (Earned tfc at) (settle env original conditions tfc')
    unfolding settle must_list_owned_gpu_pools refreshed
    settle-Only ran original conditions tfc' =
        let listed = ask (λ h. env.pools h tfc'.meta.name) (list_pools tfc'.meta.name) in
        let ready = (set_as_ready env.set_status_condition conditions tfc').0 in
        >>=-Only (Earned tfc at) (must_list_owned_gpu_pools env tfc') (refreshed original ready)
          (>>=-Only (Earned tfc at) listed (check same_error)
            (ask-Only (Earned tfc at) (λ h. env.pools h tfc'.meta.name) (list_pools tfc'.meta.name)
              tt)
            (check-Only (Earned tfc at) same_error))
          (λ pools.
            >>=-Only (Earned tfc at) (λ h. (refresh_status pools ready, h))
              (λ status.
                update_tf_cluster_status env (with_status ready status) (some original) >>= λ _.
                pure Requeue.stop)
              (λ h. same)
              (λ status.
                >>=-Only (Earned tfc at)
                  (update_tf_cluster_status env (with_status ready status) (some original))
                  (λ _. pure Requeue.stop)
                  (update-Only (with_status ready status) (some original) (λ up. ran))
                  (λ u h. same)))

    judged-Only :
        (original : TensorFusionClusterStatus Q) (r : Reply (List (GpuPool Q)))
        → env.pools at tfc.meta.name ≡ r
        → Only (Earned tfc at) (judged env tfc r >>= after_check env original tfc)
    judged-Only original (fail e) listed h' = more (event "CheckComponentStatusError") tt same
    judged-Only original (done pools) listed h' = elim (Bool-cases (pools_ready env tfc pools)) [
      | inl ready ↦ rw ready (
          settle-Only (ready-AllRan tfc at pools listed ready) original (component_conditions true)
            (without_retries env tfc) h')
      | inr waiting ↦ rw waiting (wait-Only original (component_conditions false) h')
    ]

  -- The part of a reconciliation for a cluster that is being updated first lists the pools, and sends a
  -- status with the phase `Running` only if that listing gives as many pools as the spec has, all of
  -- them running.
  pub check_updating-Earned :
      (original : TensorFusionClusterStatus Q) (tfc : TensorFusionCluster Q) (h : History Q)
      → Since (Earned tfc h) h (check_updating env original tfc h).1
  unfolding check_updating check_tf_cluster_components_ready
  check_updating-Earned original tfc h =
      Since-trans (Earned tfc h) (more (list_pools tfc.meta.name) tt same)
        (judged-Only tfc h original (env.pools h tfc.meta.name) refl (list_pools tfc.meta.name ∷ h))
