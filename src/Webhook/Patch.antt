-- ===== src/Webhook/Patch.antt =====
-- `Handle` and `patchTFClient`: the containers that ask for resources get a connection name and the URL
-- at which to ask for the connection.
use tensor_fusion_operator.Prelude.{
  ℕ, suc, String, ◌<>◌, ◌==◌, List, [], ◌∷◌, ◌++◌, Option, none, some, Reply, done, fail, Error,
  failed, wrapped, Outcome, ok, err, panicked, Action, ◌>>=◌, pure, panic, check, if◌then◌else◌,
}
use tensor_fusion_operator.Quantity.{Quantity}
use tensor_fusion_operator.Api.{ClientConfig, Container, EnvVar, GpuPool, Pod}
use tensor_fusion_operator.Webhook.{TfResource, parse_tf_resources}

abbrev pub connection_name_env : String
connection_name_env = "TENSOR_FUSION_CONNECTION_NAME"

abbrev pub connection_namespace_env : String
connection_namespace_env = "TENSOR_FUSION_CONNECTION_NAMESPACE"

abbrev pub get_connection_url_env : String
get_connection_url_env = "TENSOR_FUSION_OPERATOR_GET_CONNECTION_URL"

-- `admission.Response`, with the patches of type `P`.
pub data Response (P : Type 0) : Type 0 where
  errored : ℕ → Error → Response P
  allowed : String → Response P
  patched : String → List P → Response P

-- What the webhook uses of encoding/json, strategicpatch, jsonpatch, the decoder and the API server: `J` is
-- the type of JSON texts, `R` that of requests; `uuid n` is the `n`th that shortuuid makes.
pub record Env (Q J R P : Type 0) : Type 0 where
  pub decode : R → Reply Pod
  pub pool : String → Reply (GpuPool Q)
  pub parse : String → Reply Q
  pub marshal_pod : Pod → Reply J
  pub marshal_container : Container → Reply J
  pub marshal_raw : Option String → Reply J
  pub merge_pod : J → J → Reply J
  pub merge_container : J → J → Reply J
  pub unmarshal_pod : J → Reply Pod
  pub unmarshal_container : J → Reply Container
  pub create_patch : J → J → Reply (List P)
  pub generate_name : Pod → String
  pub uuid : ℕ → String

-- An action on the number of uuids made so far.
abbrev pub Mutation : Type 0 → Type 0
Mutation A = Action ℕ A

abbrev pub draw : Mutation ℕ
draw n = (ok n, suc n)

abbrev pub connection_env : String → String → String → List EnvVar
connection_env endpoint name namespace =
    record { name = connection_name_env; value = name }
    ∷ record { name = connection_namespace_env; value = namespace }
    ∷ record {
      name = get_connection_url_env;
      value = endpoint <> "/api/connection?name=" <> name <> "&namespace=" <> namespace;
    }
    ∷ []

-- A nil client configuration is dereferenced.
abbrev pub configured : Option ClientConfig → Mutation ClientConfig
configured none = panic
configured (some config) = pure config

module _ {Q J R P : Type 0} ⦃q : Quantity Q⦄ (env : Env Q J R P) where
  abbrev pub connection_name : Pod → Container → ℕ → String
  connection_name pod c n = env.generate_name pod <> c.name <> "-tf-worker-" <> env.uuid n

  -- The variables of a connection at the end of the container's environment.
  unfoldable pub with_connection : ClientConfig → Pod → Container → ℕ → Container
  with_connection config pod c n = record c {
    env =
        c.env
        ++ connection_env config.operator_endpoint (connection_name pod c n) pod.meta.namespace;
  }

  -- The container with the configured patch.
  unfoldable pub merged : ClientConfig → Container → J → Mutation Container
  merged config c json = do
    patch ← check (wrapped "marshal patchToContainer") (env.marshal_raw config.patch_to_container)
    both ←
        check (wrapped "apply strategic merge patch to container") (env.merge_container json patch)
    check (wrapped "unmarshal patched container") (env.unmarshal_container both)

  unfoldable pub patch_container : Option ClientConfig → Pod → Container → Mutation Container
  unfolding with_connection merged
  patch_container client pod c = do
    json ← check (wrapped "marshal container") (env.marshal_container c)
    config ← configured client
    c' ← merged config c json
    n ← draw
    pure (with_connection config pod c' n)

  -- The inner loop, over the containers.
  unfoldable pub patch_containers :
      Option ClientConfig → Pod → TfResource Q → List Container → Mutation (List Container)
  unfolding patch_container
  patch_containers client pod res [] = pure []
  patch_containers client pod res (c ∷ containers) = do
    c' ← (if c.name == res.container_name then patch_container client pod c else pure c)
    rest ← patch_containers client pod res containers
    pure (c' ∷ rest)

  -- The outer loop, over the resources.
  unfoldable pub patch_all :
      Option ClientConfig → Pod → List (TfResource Q) → List Container → Mutation (List Container)
  unfolding patch_containers
  patch_all client pod [] containers = pure containers
  patch_all client pod (res ∷ resources) containers = do
    containers' ← patch_containers client pod res containers
    patch_all client pod resources containers'

  -- What is left to do once the containers are patched.
  unfoldable pub create_patches : Option ClientConfig → Pod → J → List Container → Mutation (List P)
  create_patches client pod current containers = do
    let s = pod.spec
    let pod' : Pod = record pod { spec = record s { containers = containers } }
    json ← check (wrapped "marshal current pod") (env.marshal_pod pod')
    patches ← check (wrapped "patch to container") (env.create_patch current json)
    config ← configured client
    patch ← check (wrapped "marshal patch") (env.marshal_raw config.patch_to_pod)
    result ← check (wrapped "apply strategic merge patch") (env.merge_pod current patch)
    strategic ← check (wrapped "create json patch") (env.create_patch current result)
    final ← check (wrapped "unmarshal patched pod") (env.unmarshal_pod result)
    pure (patches ++ strategic)

  unfoldable pub patch_tf_client :
      Pod → Option ClientConfig → List (TfResource Q) → Mutation (List P)
  unfolding patch_all create_patches
  patch_tf_client pod client resources = do
    current ← check (wrapped "marshal current pod") (env.marshal_pod pod)
    containers ← patch_all client pod resources pod.spec.containers
    create_patches client pod current containers

  -- Errors become responses.
  abbrev pub answer : Outcome (List P) × ℕ → Outcome (Response P) × ℕ
  answer (ok patches, n) = (ok (patched "tensor fusion component patched" patches), n)
  answer (err e, n) = (ok (errored 500 e), n)
  answer (panicked, n) = (panicked, n)

  abbrev pub mutate : Pod → List (TfResource Q) → GpuPool Q → Mutation (Response P)
  mutate pod resources pool n = elim pool.spec.component_config [
    | none ↦ (panicked, n)
    | some config ↦ answer (patch_tf_client pod config.client resources n)
  ]

  abbrev pub with_pool :
      Pod → String → List (TfResource Q) → Reply (GpuPool Q) → Mutation (Response P)
  with_pool pod pool_name resources (fail e) =
      pure (errored 500 (failed ("gpu pool(" <> pool_name <> ") does not exist")))
  with_pool pod pool_name resources (done pool) = mutate pod resources pool

  abbrev pub handle_requirements : Pod → String × List (TfResource Q) → Mutation (Response P)
  handle_requirements pod (pool_name, []) = pure (allowed "no tensor fusion requirements found")
  handle_requirements pod (pool_name, res ∷ resources) =
      with_pool pod pool_name (res ∷ resources) (env.pool pool_name)

  unfoldable pub handle : R → Mutation (Response P)
  unfolding parse_tf_resources patch_tf_client
  handle req = elim (env.decode req) [
    | fail e ↦ pure (errored 400 e)
    | done pod ↦ handle_requirements pod (parse_tf_resources env.parse pod)
  ]
