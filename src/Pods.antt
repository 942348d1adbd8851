-- ===== src/Pods.antt =====
-- internal/controller/pod_controller.go: the connections of a pod. The metrics are not modelled.
pub mod Missing
mod Tests
use tensor_fusion_operator.Prelude.{
  String, ◌<>◌, List, [], ◌∷◌, map, Error, wrapped, is_not_found, Reply, done, fail, Action, ◌>>=◌,
  ◌>>◌, pure, raise, check, ask, if◌then◌else◌,
}
use tensor_fusion_operator.Quantity.{Quantity}
use tensor_fusion_operator.Api.{
  NamespacedName, Pod, TensorFusionConnection, TensorFusionConnectionPhase,
}
use tensor_fusion_operator.Webhook.{TfResource, parse_tf_resources}
use tensor_fusion_operator.Worker.{new_meta}

pub data Call (Q : Type 0) : Type 0 where
  get_pod : NamespacedName → Call Q
  get_connection : NamespacedName → Call Q
  create_connection : TensorFusionConnection Q → Call Q

abbrev pub History : Type 0 → Type 0
History Q = List (Call Q)

pub record Env (Q : Type 0) : Type 0 where
  pub pod : History Q → NamespacedName → Reply Pod
  pub connection : History Q → NamespacedName → Reply (TensorFusionConnection Q)
  pub connection_created : History Q → TensorFusionConnection Q → Reply (Unit {0})
  pub parse_quantity : String → Reply Q

abbrev pub connection_of : {Q : Type 0} → Pod → String → TfResource Q → TensorFusionConnection Q
connection_of pod pool_name req =
    let m = new_meta req.connection_name req.connection_namespace in
    record {
      meta = record m { owner_references = pod.meta.name ∷ [] };
      spec = record {
        pool_name = pool_name;
        resources = record {
          requests = record { tflops = req.tflops_request; vram = req.vram_request };
          limits = record { tflops = req.tflops_limit; vram = req.vram_limit };
        };
      };
      status = record {
        phase = TensorFusionConnectionPhase.pending;
        connection_url = "";
        qos_class = "";
        gpu = "";
      };
    }

unfoldable pub generate_tensor_fusion_connection :
    {Q : Type 0} → Pod → String → List (TfResource Q) → List (TensorFusionConnection Q)
generate_tensor_fusion_connection pod pool_name reqs = map (connection_of pod pool_name) reqs

abbrev pub key_of : {Q : Type 0} → TensorFusionConnection Q → NamespacedName
key_of c = record { name = c.meta.name; namespace = c.meta.namespace }

module _ {Q : Type 0} ⦃q : Quantity Q⦄ (env : Env Q) where
  abbrev Handler : Type 0 → Type 0
  Handler A = Action (History Q) A

  unfoldable pub create : TensorFusionConnection Q → Handler (Unit {0})
  create c =
      ask (λ h. env.connection_created h c) (create_connection c)
      >>= check (wrapped "create connection")

  -- An error of the Get that is not `NotFound` is dropped.
  unfoldable pub create_if_missing :
      TensorFusionConnection Q → Reply (TensorFusionConnection Q) → Handler (Unit {0})
  unfolding create
  create_if_missing c (done existing) = pure tt
  create_if_missing c (fail e) = if is_not_found e then create c else pure tt

  unfoldable pub apply_one : TensorFusionConnection Q → Handler (Unit {0})
  unfolding create_if_missing
  apply_one c =
      ask (λ h. env.connection h (key_of c)) (get_connection (key_of c)) >>= create_if_missing c

  unfoldable pub apply_all : List (TensorFusionConnection Q) → Handler (Unit {0})
  unfolding apply_one
  apply_all [] = pure tt
  apply_all (c ∷ cs) = apply_one c >> apply_all cs

  unfoldable pub reconcile_pod : NamespacedName → Handler (Unit {0})
  unfolding apply_all generate_tensor_fusion_connection parse_tf_resources
  reconcile_pod key = do
    answer ← ask (λ h. env.pod h key) (get_pod key)
    elim answer [
      | fail e ↦ if is_not_found e then pure tt else raise e
      | done pod ↦
          let (pool_name, resources) = parse_tf_resources env.parse_quantity pod in
          apply_all (generate_tensor_fusion_connection pod pool_name resources)
    ]
