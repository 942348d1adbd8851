-- ===== src/Worker.antt =====
-- internal/worker/worker.go: the worker pod of a connection.
use tensor_fusion_operator.Prelude.{
  ℕ, ◌+◌, String, ◌<>◌, ◌==◌, List, [], ◌∷◌, ◌++◌, Dict, Option, none, some, find, Reply, done,
  fail, Outcome, ok, err, panicked, wrapped, failed,
}
use tensor_fusion_operator.Api.{
  Container, EnvVar, Gpu, NamespacedName, ObjectMeta, Pod, PodPhase, PodSpec, WorkerConfig,
  worker_port_env,
}
use tensor_fusion_operator.Prelude.Int.{pos}

-- What the generator uses of encoding/json, strconv and math/rand: `unmarshal` parses a pod template
-- into its spec, `itoa` is `strconv.Itoa`.
pub record WorkerEnv : Type 0 where
  pub unmarshal : String → Reply PodSpec
  pub itoa : ℕ → String

-- `GenerateConnectionURL`, which reads the environment of the first container.
connection_url : Pod → List Container → Outcome String
connection_url pod [] = panicked
connection_url pod (c ∷ containers) =
    elim (find (λ (e : EnvVar). e.name == worker_port_env) c.env) [
      | none ↦ err (failed ("worker port not found in pod " <> pod.meta.name))
      | some port ↦ ok ("native+" <> pod.status.pod_ip <> "+" <> port.value)
    ]

unfoldable pub generate_connection_url : Pod → Outcome String
unfolding connection_url
generate_connection_url pod = connection_url pod pod.spec.containers

-- `AllocPort`, where `random n` is the value of `rand.Intn(n)`.
unfoldable pub alloc_port : (ℕ → ℕ) → ℕ
alloc_port random = random 35536 + 30000

-- The spec with the GPU's selector and the two variables added to the first container.
unfoldable pub with_worker_env :
    {Q : Type 0} → WorkerEnv → Gpu Q → ℕ → Dict String → List Container → Outcome PodSpec
with_worker_env env gpu port selector [] = panicked
with_worker_env env gpu port selector (c ∷ containers) = ok (record {
  node_selector = gpu.status.node_selector;
  containers =
      record c {
        env =
            c.env
            ++ record { name = "NVIDIA_VISIBLE_DEVICES"; value = gpu.status.uuid }
              ∷ record { name = worker_port_env; value = env.itoa port }
              ∷ [];
      }
      ∷ containers;
})

abbrev pub new_meta : String → String → ObjectMeta
new_meta name namespace = record {
  name = name;
  namespace = namespace;
  labels = [];
  annotations = [];
  owner_references = [];
  finalizers = [];
  creation_timestamp = pos 0;
  deletion_timestamp = none;
}

abbrev pub new_pod : NamespacedName → PodSpec → Pod
new_pod key spec = record {
  meta = new_meta key.name key.namespace;
  spec = spec;
  status = record { phase = PodPhase.unset; pod_ip = "" };
}

unmarshalled : {Q : Type 0} → WorkerEnv → Gpu Q → NamespacedName → ℕ → Reply PodSpec → Outcome Pod
unfolding with_worker_env
unmarshalled env gpu key port (fail e) = err (wrapped "failed to unmarshal pod template" e)
unmarshalled env gpu key port (done spec) =
    elim (with_worker_env env gpu port spec.node_selector spec.containers) [
      | ok s ↦ ok (new_pod key s)
      | err e ↦ err e
      | panicked ↦ panicked
    ]

template_pod : {Q : Type 0} → WorkerEnv → Gpu Q → NamespacedName → ℕ → Option String → Outcome Pod
unfolding unmarshalled
template_pod env gpu key port none = panicked
template_pod env gpu key port (some raw) = unmarshalled env gpu key port (env.unmarshal raw)

-- `GenerateWorkerPod`. A nil worker configuration or template is a nil dereference.
unfoldable pub generate_worker_pod :
    {Q : Type 0} → WorkerEnv → Option WorkerConfig → Gpu Q → NamespacedName → ℕ → Outcome Pod
unfolding template_pod
generate_worker_pod env none gpu key port = panicked
generate_worker_pod env (some config) gpu key port =
    template_pod env gpu key port config.pod_template
