-- ===== src/Webhook/Tests.antt =====
-- The theorems of the webhook at concrete pods.
use tensor_fusion_operator.Webhook.Read.{with_connection_lem}
use tensor_fusion_operator.Webhook.Connected.{Pairwise, Steps, patch_all-Steps}
use tensor_fusion_operator.Webhook.Patch.{
  Env, with_connection, patch_all, patch_containers, patch_container, merged,
  get_connection_url_env,
}
use tensor_fusion_operator.Prelude.{
  Option, fail, not_found, ok, refl, String, [], ◌∷◌, none, some, lookup, done, ◌≡◌,
}
use tensor_fusion_operator.Prelude.Int.{ℤ, pos}
use tensor_fusion_operator.Api.{ClientConfig, Container, Pod, PodPhase}
use tensor_fusion_operator.Samples.{int_quantity, named}
use tensor_fusion_operator.Webhook.{
  container_resource, env_value, TfResource, gpu_pool_annotation_key, parse_tf_resources,
}
use tensor_fusion_operator.Webhook.Annotated.{Parses, parse_tf_resources_lem}

-- A container with a limit of TFLOPS and no request.
abbrev limited : Pod
limited =
    let m = named "pod" in
    record {
      meta = record m {
        annotations =
            ("tensor-fusion.ai/gpupool", "pool")
            ∷ ("tensor-fusion.ai/tflops-limit-main", "10")
            ∷ [];
      };
      spec = record { node_selector = []; containers = record { name = "main"; env = [] } ∷ [] };
      status = record { phase = PodPhase.unset; pod_ip = "" };
    }

parse_tf_resources_lem_example :
    (lookup gpu_pool_annotation_key limited.meta.annotations ≡ none
      → parse_tf_resources (λ t. done (pos 10)) limited ≡ ("", []))
    × ((pool_name : String)
        → lookup gpu_pool_annotation_key limited.meta.annotations ≡ some pool_name
        → ((parse_tf_resources (λ t. done (pos 10)) limited).0 ≡ pool_name)
          × Parses
              (λ t. done (pos 10))
              limited.meta.annotations
              limited.spec.containers
              (parse_tf_resources (λ t. done (pos 10)) limited).1)
parse_tf_resources_lem_example = parse_tf_resources_lem (λ t. done (pos 10)) limited

-- A JSON text is the container or pod itself, the patch of the configuration is empty, and a patch is a text.
pub data Json : Type 0 where
  a_pod : Pod → Json
  a_container : Container → Json
  a_raw : Option String → Json

abbrev client : ClientConfig
client = record {
  operator_endpoint = "http://operator";
  patch_to_pod = none;
  patch_to_container = none;
}

abbrev container : Container
container = record { name = "main"; env = [] }

abbrev sidecar : Container
sidecar = record { name = "sidecar"; env = [] }

abbrev env : Env ℤ Json Pod String
env = record {
  decode = λ p. done p;
  pool = λ n. fail not_found;
  parse = λ t. done (pos 10);
  marshal_pod = λ p. done (a_pod p);
  marshal_container = λ c. done (a_container c);
  marshal_raw = λ r. done (a_raw r);
  merge_pod = λ p r. done p;
  merge_container = λ c r. done c;
  unmarshal_pod =
      λ j. elim j [ a_pod p ↦ done p | a_container c ↦ fail not_found | a_raw r ↦ fail not_found ];
  unmarshal_container =
      λ j. elim j [ a_pod p ↦ fail not_found | a_container c ↦ done c | a_raw r ↦ fail not_found ];
  create_patch = λ a b. done [];
  generate_name = λ p. "job-";
  uuid = λ n. "1";
}

abbrev asked : TfResource ℤ
asked = container_resource (λ t. done (pos 10)) [] container

abbrev connected : Container
connected = with_connection env client limited container 0

patched_containers :
    patch_all env (some client) limited (asked ∷ []) (container ∷ sidecar ∷ []) 0
    ≡ (ok (connected ∷ sidecar ∷ []), 1)
unfolding patch_all patch_containers patch_container merged container_resource with_connection
patched_containers = refl

patch_all-Steps_example :
    Pairwise
      (Steps env (some client) limited (asked ∷ []))
      (container ∷ sidecar ∷ [])
      (connected ∷ sidecar ∷ [])
patch_all-Steps_example =
    patch_all-Steps env (some client) limited (asked ∷ []) (container ∷ sidecar ∷ [])
      (connected ∷ sidecar ∷ []) 0 1 patched_containers

with_connection_lem_example :
    ((container_resource (λ t. done (pos 10)) [] connected).connection_name
      ≡ "job-main-tf-worker-1")
    × ((container_resource (λ t. done (pos 10)) [] connected).connection_namespace ≡ "default")
    × (env_value get_connection_url_env connected
        ≡ "http://operator/api/connection?name=job-main-tf-worker-1&namespace=default")
with_connection_lem_example =
    with_connection_lem env (λ t. done (pos 10)) [] client limited container 0 refl refl refl
