-- ===== src/Connection/Handlers.antt =====
-- `Reconcile` and what it calls.
use tensor_fusion_operator.Prelude.{
  [], ◌<>◌, is_empty, Bool, true, false, Option, none, some, if◌then◌else◌, Action, Reply, Outcome,
  done, fail, ok, err, panicked, failed, wrapped, is_not_found, ◌>>=◌, ◌>>◌, pure, raise, panic,
  check, same_error,
}
use tensor_fusion_operator.Prelude.Int.{pos}
use tensor_fusion_operator.Quantity.{Quantity}
use tensor_fusion_operator.Api.{
  ComponentConfig, Gpu, NamespacedName, Pod, Requeue, TensorFusionConnection,
  TensorFusionConnectionPhase, WorkerConfig, is_pod_running,
}
use tensor_fusion_operator.Scheduler.{schedule, release}
use tensor_fusion_operator.Utils.Finalizer.{handle_finalizer}
use tensor_fusion_operator.Worker.{
  alloc_port, generate_connection_url, generate_worker_pod, new_pod,
}
use tensor_fusion_operator.Connection.World.{
  World, Env, request, scheduling, connection_object, get_connection, update_connection,
  update_connection_status, get_gpu, update_gpu_status, get_pool, get_pod, create_pod,
}

abbrev pub key_of : {Q : Type 0} → TensorFusionConnection Q → NamespacedName
key_of c = record { name = c.meta.name; namespace = c.meta.namespace }

-- `Phase == "" || Phase == TensorFusionConnectionPending`
abbrev pub wants_gpu : TensorFusionConnectionPhase → Bool
wants_gpu TensorFusionConnectionPhase.unset = true
wants_gpu TensorFusionConnectionPhase.pending = true
wants_gpu _ = false

abbrev pub is_pending : TensorFusionConnectionPhase → Bool
is_pending TensorFusionConnectionPhase.pending = true
is_pending _ = false

abbrev pub with_phase :
    {Q : Type 0} → TensorFusionConnectionPhase → TensorFusionConnection Q → TensorFusionConnection Q
with_phase p c = record c { status = record (c.status) { phase = p } }

-- The connection with the GPU that it was given, whose name is kept for the cleanup.
abbrev pub starting : {Q : Type 0} → Gpu Q → TensorFusionConnection Q → TensorFusionConnection Q
starting gpu c = record c {
  status = record (c.status) { phase = TensorFusionConnectionPhase.starting; gpu = gpu.meta.name };
}

-- `constants.PendingRequeueDuration`, in nanoseconds.
abbrev pub pending_requeue_duration : Requeue
pending_requeue_duration = Requeue.after (pos 3_000_000_000)

module _ {Q : Type 0} ⦃q : Quantity Q⦄ (env : Env Q) where
  unfoldable pub update_gpu : Option (Gpu Q) → Action (World Q) (Unit {0})
  update_gpu none = pure tt
  update_gpu (some gpu) = do
    answer ← request (λ h. env.gpu h gpu.meta.name) (get_gpu gpu.meta.name)
    latest ← check same_error answer
    let updated = record latest {
      status = record (latest.status) { available = gpu.status.available };
    }
    answer' ← request (λ h. env.gpu_status_updated h updated) (update_gpu_status updated)
    check same_error answer'

  unfoldable pub update_status_once :
      TensorFusionConnection Q → Option (Gpu Q) → Action (World Q) (Unit {0})
  unfolding update_gpu
  update_status_once connection gpu = do
    answer ←
        request (λ h. env.connection h (key_of connection)) (get_connection (key_of connection))
    latest ← check same_error answer
    let updated = record latest { status = connection.status }
    answer' ←
        request (λ h. env.connection_status_updated h updated) (update_connection_status updated)
    check same_error answer'
    update_gpu gpu

  -- `mustUpdateTFConnectionStatus`
  unfoldable pub must_update_tf_connection_status :
      TensorFusionConnection Q → Option (Gpu Q) → Action (World Q) (Unit {0})
  unfolding update_status_once
  must_update_tf_connection_status connection gpu =
      env.retry_on_conflict (update_status_once connection gpu)

  unfoldable pub release_gpu :
      TensorFusionConnection Q → Reply (Gpu Q) → Action (World Q) (Unit {0})
  unfolding must_update_tf_connection_status
  release_gpu connection (fail e) = if is_not_found e then pure tt else raise e
  release_gpu connection (done gpu) = do
    gpu' ← scheduling (release connection.spec.resources.requests gpu)
    must_update_tf_connection_status connection (some gpu')

  -- `handleDeletion`
  unfoldable pub handle_deletion : TensorFusionConnection Q → Action (World Q) (Unit {0})
  unfolding release_gpu
  handle_deletion connection = if is_empty connection.status.gpu then pure tt else (do
    answer ← request (λ h. env.gpu h connection.status.gpu) (get_gpu connection.status.gpu)
    release_gpu connection answer)

  unfoldable pub lift : {A : Type 0} → Outcome A → Action (World Q) A
  lift r w = (r, w)

  unfoldable pub start_worker :
      Option WorkerConfig
      → Gpu Q
      → TensorFusionConnection Q
      → NamespacedName
      → Reply Pod
      → Action (World Q) Pod
  unfolding lift
  start_worker config gpu connection key (done pod) = pure pod
  start_worker config gpu connection key (fail e) =
      if is_not_found e
      then (do
        port ← λ w. (ok (alloc_port (env.random w)), w)
        pod ← lift (generate_worker_pod env.worker config gpu key port)
        owned ← check (wrapped "set owner reference") (env.controlled_by connection pod)
        answer ← request (λ h. env.pod_created h owned) (create_pod owned)
        check (wrapped "create pod") answer)
      else pure (
          new_pod (record { name = ""; namespace = "" })
            (record { node_selector = []; containers = [] }))

  -- `tryStartWorker`. An error of the lookup other than "not found" is dropped, and leaves an empty pod.
  unfoldable pub try_start_worker :
      Option WorkerConfig → Gpu Q → TensorFusionConnection Q → NamespacedName → Action (World Q) Pod
  unfolding start_worker
  try_start_worker config gpu connection key = do
    answer ← request (λ h. env.pod h key) (get_pod key)
    start_worker config gpu connection key answer

  -- The scheduling of `Reconcile`: the GPU, if one was found, and the connection with its new phase.
  -- Every error of the scheduler leaves the connection pending.
  unfoldable pub try_schedule :
      TensorFusionConnection Q → Action (World Q) (Option (Gpu Q) × TensorFusionConnection Q)
  try_schedule connection w =
      if wants_gpu connection.status.phase
      then (let (r, s) =
            schedule (env.visit_order w) connection.spec.resources.requests w.scheduler in
          let w' = record w { scheduler = s } in
          elim r [
            | ok gpu ↦ (ok (some gpu, starting gpu connection), w')
            | err e ↦ (ok (none, with_phase TensorFusionConnectionPhase.pending connection), w')
            | panicked ↦ (panicked, w')
          ])
      else pure (none, connection) w

  -- The GPU of an earlier reconciliation; one that cannot be read counts as none.
  unfoldable pub find_gpu :
      Option (Gpu Q) → TensorFusionConnection Q → Action (World Q) (Option (Gpu Q))
  find_gpu (some gpu) connection = pure (some gpu)
  find_gpu none connection = if is_empty connection.status.gpu then pure none else (do
    answer ← request (λ h. env.gpu h connection.status.gpu) (get_gpu connection.status.gpu)
    pure (elim answer [ done gpu ↦ some gpu | fail e ↦ none ]))

  -- The connection after its worker pod was found or created.
  unfoldable pub running :
      TensorFusionConnection Q → Pod → Action (World Q) (TensorFusionConnection Q)
  unfolding lift
  running connection pod =
      if is_pod_running pod.status.phase
      then (do
        url ← lift (generate_connection_url pod)
        pure (record connection {
          status = record (connection.status) {
            phase = TensorFusionConnectionPhase.running;
            connection_url = url;
          };
        }))
      else pure connection

  unfoldable pub with_pool :
      Gpu Q
      → TensorFusionConnection Q
      → Option ComponentConfig
      → Action (World Q) (TensorFusionConnection Q)
  unfolding try_start_worker running
  with_pool gpu connection none = panic
  with_pool gpu connection (some config) = do
    pod ← try_start_worker config.worker gpu connection (key_of connection)
    running connection pod

  unfoldable pub ensure_worker :
      Option (Gpu Q) → TensorFusionConnection Q → Action (World Q) (TensorFusionConnection Q)
  unfolding with_pool
  ensure_worker none connection = pure connection
  ensure_worker (some gpu) connection =
      if is_pending connection.status.phase then pure connection else (do
        answer ←
            request (λ h. env.pool h connection.spec.pool_name) (get_pool connection.spec.pool_name)
        pool ←
            check (λ e. failed ("gpu pool(" <> connection.spec.pool_name <> ") does not exist"))
              answer
        with_pool gpu connection pool.spec.component_config)

  -- The end of `Reconcile`: the status is stored, and a pending connection is tried again.
  unfoldable pub conclude : Option (Gpu Q) → TensorFusionConnection Q → Action (World Q) Requeue
  conclude gpu connection = do
    must_update_tf_connection_status connection gpu
    pure (if is_pending connection.status.phase then pending_requeue_duration else Requeue.stop)

  unfoldable pub launch : TensorFusionConnection Q → Option (Gpu Q) → Action (World Q) Requeue
  launch connection gpu = ensure_worker gpu connection >>= conclude gpu

  unfoldable pub after_schedule :
      Option (Gpu Q) × TensorFusionConnection Q → Action (World Q) Requeue
  after_schedule (scheduled, connection) = find_gpu scheduled connection >>= launch connection

  -- `Reconcile` from the scheduling on.
  unfoldable pub place : TensorFusionConnection Q → Action (World Q) Requeue
  place connection = try_schedule connection >>= after_schedule

  unfoldable pub found : Reply (TensorFusionConnection Q) → Action (World Q) Requeue
  found (fail e) = if is_not_found e then pure Requeue.stop else raise e
  found (done connection) = do
    (deleted, connection') ←
        handle_finalizer env.util connection_object
          (λ c. request (λ h. env.connection_updated h c) (update_connection c)) handle_deletion
          connection
    if deleted then pure Requeue.stop else place connection'

  -- `Reconcile`
  unfoldable pub reconcile : NamespacedName → Action (World Q) Requeue
  unfolding found
  reconcile key = do answer ← request (λ h. env.connection h key) (get_connection key); found answer
