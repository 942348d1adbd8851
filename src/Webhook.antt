-- ===== src/Webhook.antt =====
-- internal/webhook/v1/pod_webhook.go: here `ParseTFResources`, what a pod asks for in its annotations.
-- `parse` is `resource.ParseQuantity`.
pub mod Annotated
pub mod Patch
pub mod Connected
pub mod Read
mod Tests
use tensor_fusion_operator.Prelude.{
  String, ◌<>◌, ◌==◌, Bool, true, false, ◌&&◌, ◌||◌, not, List, [], ◌∷◌, Option, none, some, find,
  lookup, Dict, Reply, done, fail, if◌then◌else◌,
}
use tensor_fusion_operator.Quantity.{Quantity}
use tensor_fusion_operator.Api.{Container, EnvVar, Pod}

abbrev pub gpu_pool_annotation_key : String
gpu_pool_annotation_key = "tensor-fusion.ai/gpupool"

abbrev pub tflops_request_key : String → String
tflops_request_key container = "tensor-fusion.ai/tflops-request-" <> container

abbrev pub vram_request_key : String → String
vram_request_key container = "tensor-fusion.ai/vram-request-" <> container

abbrev pub tflops_limit_key : String → String
tflops_limit_key container = "tensor-fusion.ai/tflops-limit-" <> container

abbrev pub vram_limit_key : String → String
vram_limit_key container = "tensor-fusion.ai/vram-limit-" <> container

pub record TfResource (Q : Type 0) : Type 0 where
  pub container_name : String
  pub connection_name : String
  pub connection_namespace : String
  pub tflops_request : Q
  pub vram_request : Q
  pub tflops_limit : Q
  pub vram_limit : Q

-- The value of a variable of the container, empty without it.
unfoldable pub env_value : String → Container → String
env_value name container = elim (find (λ (e : EnvVar). e.name == name) container.env) [
  | none ↦ ""
  | some e ↦ e.value
]

abbrev pub has : Option String → Bool
has none = false
has (some text) = true

-- The text of an annotation; Go reads a missing one as empty.
abbrev pub text_of : Option String → String
text_of none = ""
text_of (some text) = text

-- Some annotation of the container asks for resources.
unfoldable pub asks : Dict String → Container → Bool
asks annotations container =
    has (lookup (tflops_request_key container.name) annotations)
    || has (lookup (vram_request_key container.name) annotations)
    || has (lookup (tflops_limit_key container.name) annotations)
    || has (lookup (vram_limit_key container.name) annotations)

module _ {Q : Type 0} ⦃q : Quantity Q⦄ (parse : String → Reply Q) where
  -- What cannot be parsed stays zero, as what is not looked at.
  unfoldable pub parsed_if : Bool → String → Q
  parsed_if false text = q.zero
  parsed_if true text = elim (parse text) [ done amount ↦ amount | fail e ↦ q.zero ]

  -- The limits are parsed where there is a request.
  unfoldable pub container_resource : Dict String → Container → TfResource Q
  unfolding env_value parsed_if
  container_resource annotations container =
      let tflops_request = lookup (tflops_request_key container.name) annotations in
      let vram_request = lookup (vram_request_key container.name) annotations in
      record {
        container_name = container.name;
        connection_name = env_value "TENSOR_FUSION_CONNECTION_NAME" container;
        connection_namespace = env_value "TENSOR_FUSION_CONNECTION_NAMESPACE" container;
        tflops_request = parsed_if (has tflops_request) (text_of tflops_request);
        vram_request = parsed_if (has vram_request) (text_of vram_request);
        tflops_limit =
            parsed_if (has tflops_request)
              (text_of (lookup (tflops_limit_key container.name) annotations));
        vram_limit =
            parsed_if (has vram_request)
              (text_of (lookup (vram_limit_key container.name) annotations));
      }

  unfoldable pub container_resources : Dict String → List Container → List (TfResource Q)
  unfolding asks container_resource
  container_resources annotations [] = []
  container_resources annotations (c ∷ containers) =
      let rest = container_resources annotations containers in
      if asks annotations c then container_resource annotations c ∷ rest else rest

  unfoldable pub parse_tf_resources : Pod → String × List (TfResource Q)
  unfolding container_resources
  parse_tf_resources pod = elim (lookup gpu_pool_annotation_key pod.meta.annotations) [
    | none ↦ ("", [])
    | some pool_name ↦ (pool_name, container_resources pod.meta.annotations pod.spec.containers)
  ]
