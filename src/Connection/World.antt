-- ===== src/Connection/World.antt =====
-- The world of the connection reconciler: the calls made to the Kubernetes API, newest first, and the
-- scheduler's table. `Env` is everything outside the repository: what the API server answers after a
-- history of calls, the order in which Go visits the table, random numbers, client-go's retry.
use tensor_fusion_operator.Prelude.{ℕ, String, List, ◌∷◌, Reply, ok, Action}
use tensor_fusion_operator.Api.{Gpu, GpuPool, NamespacedName, Pod, TensorFusionConnection}
use tensor_fusion_operator.Scheduler.{NaiveScheduler}
use tensor_fusion_operator.Utils.Finalizer.{ControllerUtil, Object}
use tensor_fusion_operator.Worker.{WorkerEnv}

pub data Call (Q : Type 0) : Type 0 where
  get_connection : NamespacedName → Call Q
  update_connection : TensorFusionConnection Q → Call Q
  update_connection_status : TensorFusionConnection Q → Call Q
  get_gpu : String → Call Q
  update_gpu_status : Gpu Q → Call Q
  get_pool : String → Call Q
  get_pod : NamespacedName → Call Q
  create_pod : Pod → Call Q

pub record World (Q : Type 0) : Type 0 where
  pub calls : List (Call Q)
  pub scheduler : NaiveScheduler Q

pub record Env (Q : Type 0) : Type 0 where
  pub connection : List (Call Q) → NamespacedName → Reply (TensorFusionConnection Q)
  pub connection_updated :
      List (Call Q) → TensorFusionConnection Q → Reply (TensorFusionConnection Q)
  pub connection_status_updated : List (Call Q) → TensorFusionConnection Q → Reply (Unit {0})
  pub gpu : List (Call Q) → String → Reply (Gpu Q)
  pub gpu_status_updated : List (Call Q) → Gpu Q → Reply (Unit {0})
  pub pool : List (Call Q) → String → Reply (GpuPool Q)
  pub pod : List (Call Q) → NamespacedName → Reply Pod
  pub pod_created : List (Call Q) → Pod → Reply Pod
  pub visit_order : World Q → List String
  pub random : World Q → ℕ → ℕ
  pub controlled_by : TensorFusionConnection Q → Pod → Reply Pod  -- `ctrl.SetControllerReference`
  pub retry_on_conflict : Action (World Q) (Unit {0}) → Action (World Q) (Unit {0})
  pub worker : WorkerEnv
  pub util : ControllerUtil

abbrev pub request :
    {Q A : Type 0} → (List (Call Q) → Reply A) → Call Q → Action (World Q) (Reply A)
request answer c w = (ok (answer w.calls), record w { calls = c ∷ w.calls })

-- A method of the scheduler, run on the table of the world.
abbrev pub scheduling : {Q A : Type 0} → Action (NaiveScheduler Q) A → Action (World Q) A
scheduling m w = let (r, s) = m w.scheduler in (r, record w { scheduler = s })

abbrev pub connection_object : {Q : Type 0} → Object (TensorFusionConnection Q)
connection_object = record { meta = λ c. c.meta; with_meta = λ c m. record c { meta = m } }
