-- ===== src/Connection/Table.antt =====
-- Which parts of the reconciler leave the scheduler's table alone.
use tensor_fusion_operator.Prelude.{
  arith, ◌∷◌, ◌≡◌, refl, ◌∙◌, Option, none, some, if◌then◌else◌, Action, Reply, Outcome, done, fail,
  ok, err, panicked, ◌>>=◌,
}
use tensor_fusion_operator.Scheduler.{schedule}
use tensor_fusion_operator.Quantity.{Quantity}
use tensor_fusion_operator.Api.{
  ComponentConfig, Gpu, NamespacedName, Pod, TensorFusionConnection, WorkerConfig,
}
use tensor_fusion_operator.Connection.World.{World, Env, get_pod}
use tensor_fusion_operator.Connection.Handlers.{
  key_of, conclude, launch, after_schedule, must_update_tf_connection_status, place, wants_gpu,
  update_gpu, update_status_once, start_worker, try_start_worker, try_schedule, find_gpu, running,
  with_pool, ensure_worker,
}

abbrev pub KeepsTable : {Q A : Type 0} → Action (World Q) A → Type 0
KeepsTable {Q} m = (w : World Q) → (m w).1.scheduler ≡ w.scheduler

-- client-go's `RetryOnConflict` runs its function some number of times and does nothing else.
abbrev pub RetryOnlyRuns : {Q : Type 0} → Env Q → Type 0
RetryOnlyRuns {Q} env =
    (m : Action (World Q) (Unit {0})) → KeepsTable m → KeepsTable (env.retry_on_conflict m)

module _ {Q A B : Type 0} where
  bind_outcome-KeepsTable :
      (o : Outcome A) (mid : World Q) (f : A → Action (World Q) B)
      → ((a : A) → KeepsTable (f a))
      → (((λ (w : World Q). (o, mid)) >>= f) mid).1.scheduler ≡ mid.scheduler
  bind_outcome-KeepsTable (ok a) mid f h = h a mid
  bind_outcome-KeepsTable (err e) mid f h = refl
  bind_outcome-KeepsTable panicked mid f h = refl

  bind-KeepsTable :
      (m : Action (World Q) A) (f : A → Action (World Q) B)
      → KeepsTable m
      → ((a : A) → KeepsTable (f a))
      → KeepsTable (m >>= f)
  bind-KeepsTable m f keeps h w = bind_outcome-KeepsTable (m w).0 (m w).1 f h ∙ keeps w

module _ {Q : Type 0} ⦃q : Quantity Q⦄ (env : Env Q) where
  update_gpu-KeepsTable : (gpu : Option (Gpu Q)) → KeepsTable (update_gpu env gpu)
  unfolding update_gpu
  update_gpu-KeepsTable none w = refl
  update_gpu-KeepsTable (some gpu) w = ground arith

  update_status_once-KeepsTable :
      (c : TensorFusionConnection Q) (gpu : Option (Gpu Q))
      → KeepsTable (update_status_once env c gpu)
  unfolding update_status_once
  update_status_once-KeepsTable c gpu w = ground arith

  pub must_update-KeepsTable :
      RetryOnlyRuns env
      → (c : TensorFusionConnection Q) (gpu : Option (Gpu Q))
      → KeepsTable (must_update_tf_connection_status env c gpu)
  unfolding must_update_tf_connection_status
  must_update-KeepsTable only c gpu =
      only (update_status_once env c gpu) (update_status_once-KeepsTable c gpu)

  start_worker-KeepsTable :
      (config : Option WorkerConfig) (gpu : Gpu Q) (c : TensorFusionConnection Q)
      (key : NamespacedName) (answer : Reply Pod)
      → KeepsTable (start_worker env config gpu c key answer)
  unfolding start_worker
  start_worker-KeepsTable config gpu c key (done pod) w = refl
  start_worker-KeepsTable config gpu c key (fail e) w = ground arith

  try_start_worker-KeepsTable :
      (config : Option WorkerConfig) (gpu : Gpu Q) (c : TensorFusionConnection Q)
      (key : NamespacedName)
      → KeepsTable (try_start_worker env config gpu c key)
  unfolding try_start_worker
  try_start_worker-KeepsTable config gpu c key w =
      start_worker-KeepsTable config gpu c key (env.pod w.calls key)
        (record w { calls = get_pod key ∷ w.calls })

  find_gpu-KeepsTable :
      (gpu : Option (Gpu Q)) (c : TensorFusionConnection Q) → KeepsTable (find_gpu env gpu c)
  unfolding find_gpu
  find_gpu-KeepsTable (some gpu) c w = refl
  find_gpu-KeepsTable none c w = ground arith

  running-KeepsTable : (c : TensorFusionConnection Q) (pod : Pod) → KeepsTable (running env c pod)
  unfolding running
  running-KeepsTable c pod w = ground arith

  with_pool-KeepsTable :
      (gpu : Gpu Q) (c : TensorFusionConnection Q) (config : Option ComponentConfig)
      → KeepsTable (with_pool env gpu c config)
  unfolding with_pool
  with_pool-KeepsTable gpu c none w = refl
  with_pool-KeepsTable gpu c (some config) w =
      bind-KeepsTable (try_start_worker env config.worker gpu c (key_of c)) (running env c)
        (try_start_worker-KeepsTable config.worker gpu c (key_of c)) (running-KeepsTable c) w

  ensure_worker-KeepsTable :
      (gpu : Option (Gpu Q)) (c : TensorFusionConnection Q) → KeepsTable (ensure_worker env gpu c)
  unfolding ensure_worker
  ensure_worker-KeepsTable none c w = refl
  ensure_worker-KeepsTable (some gpu) c w = grind (arith, with_pool-KeepsTable)

  conclude-KeepsTable :
      RetryOnlyRuns env
      → (gpu : Option (Gpu Q)) (c : TensorFusionConnection Q) → KeepsTable (conclude env gpu c)
  unfolding conclude
  conclude-KeepsTable only gpu c w = grind (arith, must_update-KeepsTable only c gpu)

  launch-KeepsTable :
      RetryOnlyRuns env
      → (c : TensorFusionConnection Q) (gpu : Option (Gpu Q)) → KeepsTable (launch env c gpu)
  unfolding launch
  launch-KeepsTable only c gpu =
      bind-KeepsTable (ensure_worker env gpu c) (conclude env gpu) (ensure_worker-KeepsTable gpu c)
        (conclude-KeepsTable only gpu)

  pub after_schedule-KeepsTable :
      RetryOnlyRuns env
      → (x : Option (Gpu Q) × TensorFusionConnection Q) → KeepsTable (after_schedule env x)
  unfolding after_schedule
  after_schedule-KeepsTable only (scheduled, c) =
      bind-KeepsTable (find_gpu env scheduled c) (launch env c) (find_gpu-KeepsTable scheduled c)
        (launch-KeepsTable only c)

  try_schedule_table :
      (c : TensorFusionConnection Q) (w : World Q)
      → (try_schedule env c w).1.scheduler ≡ (
          if wants_gpu c.status.phase
          then (schedule (env.visit_order w) c.spec.resources.requests w.scheduler).1
          else w.scheduler)
  unfolding try_schedule
  try_schedule_table c w = ground arith

  -- The part of a reconciliation that serves a connection which is not being deleted changes the
  -- scheduler's table by its one call of `Schedule`, or not at all: a connection that is starting or running leaves the table as it is, and for one with no phase or a
  -- pending one the table is what `Schedule` made of it, whatever happens afterwards.
  pub place_table :
      RetryOnlyRuns env
      → (c : TensorFusionConnection Q) (w : World Q)
      → (place env c w).1.scheduler ≡ (
          if wants_gpu c.status.phase
          then (schedule (env.visit_order w) c.spec.resources.requests w.scheduler).1
          else w.scheduler)
  unfolding place
  place_table only c w =
      bind_outcome-KeepsTable (try_schedule env c w).0 (try_schedule env c w).1 (after_schedule env)
        (after_schedule-KeepsTable only)
      ∙ try_schedule_table c w
