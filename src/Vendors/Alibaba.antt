-- ===== src/Vendors/Alibaba.antt =====
-- `NewAlibabaGPUNodeProvider`, `TestConnection`, `CreateNode`, `TerminateNode` and `GetNodeStatus`.
use tensor_fusion_operator.Prelude.{
  String, ◌<>◌, ◌==◌, is_empty, ◌||◌, List, [], ◌∷◌, none, some, Reply, done, fail, Error, failed,
  wrapped, same_error, ok, Action, ◌>>=◌, ◌>>◌, raise, pure, check, if◌then◌else◌,
}
use tensor_fusion_operator.Api.{ComputingVendorConfig}
use tensor_fusion_operator.CloudProvider.Types.{NodeCreationParam, NodeIdentityParam}
use tensor_fusion_operator.Vendors.World.{
  Call, Env, History, RunInstancesRequest, RunInstancesResponse, World, delete_instance,
  describe_instances, describe_regions, new_client, read_key, run_instances,
}
use tensor_fusion_operator.Vendors.Request.{request_of, tags}

-- `GPUNodeStatus`, less the time of creation.
pub record NodeStatus : Type 0 where
  pub instance_id : String
  pub private_ip : String
  pub public_ip : String

abbrev pub first_text : List String → String
first_text [] = ""
first_text (t ∷ texts) = t

-- What `GetAccessKeyOrSecretFromPath` leaves in its first result.
abbrev pub key_or_empty : Reply String → String
key_or_empty (fail e) = ""
key_or_empty (done text) = text

module _ {F K : Type 0} (env : Env F K) where
  abbrev pub send : {A : Type 0} → (History F → Reply A) → Call F → Action (World F K) (Reply A)
  send answer c w = (ok (answer w.calls), record w { calls = c ∷ w.calls })

  unfoldable pub get_access_key_or_secret_from_path : String → Action (World F K) (Reply String)
  get_access_key_or_secret_from_path path =
      if is_empty path then pure (fail (failed "no env var or file path provided")) else (do
        content ← send (λ h. env.key_file h path) (read_key path)
        pure (elim content [ fail e ↦ fail e | done text ↦ done (env.trim_space text) ]))

  -- The text of the error is left out.
  abbrev pub hidden : Error → Error
  hidden e = failed "Can not connect to Aliyun ECS API"

  unfoldable pub test_connection : K → Action (World F K) (Unit {0})
  test_connection client = do
    described ← send (λ h. env.regions_described h client) describe_regions
    check hidden described

  abbrev pub cache : K → Action (World F K) K
  cache client w = (ok client, record w { cached_client = some client })

  -- The error of the secret key is tested after the test for an empty key, which it makes true.
  unfoldable pub connect : ComputingVendorConfig → Action (World F K) K
  unfolding get_access_key_or_secret_from_path test_connection
  connect config = do
    first ← get_access_key_or_secret_from_path config.params.access_key_path
    ak ← check same_error first
    second ← get_access_key_or_secret_from_path config.params.secret_key_path
    (if is_empty ak || is_empty (key_or_empty second)
        then raise (failed "empty access key or secret key, can not create alicloud provider")
        else (do
          sk ← check same_error second
          made ←
              send (λ h. env.client_made h config.params.default_region ak sk)
                (new_client config.params.default_region)
          client ← check (wrapped "failed to create ECS client") made
          test_connection client
          cache client))

  -- A cached client is taken whatever the configuration is.
  unfoldable pub new_alibaba_gpu_node_provider : ComputingVendorConfig → Action (World F K) K
  unfolding connect
  new_alibaba_gpu_node_provider config w = elim w.cached_client [
    | some client ↦ (ok client, w)
    | none ↦
        (if config.auth_type == "accessKey"
            then connect config
            else raise (failed ("unsupported auth type for alibaba cloud: " <> config.auth_type)))
          w
  ]

  module _ (client : K) where
    unfoldable pub created : RunInstancesResponse → Action (World F K) NodeStatus
    created response =
        if response.is_success
        then pure (record { instance_id = response.request_id; private_ip = ""; public_ip = "" })
        else raise (failed ("instance creation failed: " <> response.text))

    unfoldable pub run_request : RunInstancesRequest F → Action (World F K) NodeStatus
    unfolding created
    run_request request = do
      answer ← send (λ h. env.run h client request) (run_instances request)
      response ← check (wrapped "failed to create instance") answer
      created response

    module _ {Q : Type 0} (param : NodeCreationParam Q) where
      abbrev pub create_if : Reply (RunInstancesRequest F) → Action (World F K) NodeStatus
      create_if (fail e) w = raise e w
      create_if (done request) w =
          run_request
            (record request {
              tag = tags env param (env.tag_order w.calls param.node_class.spec.tags);
            })
            w

      unfoldable pub create_node : Action (World F K) NodeStatus
      create_node = create_if (request_of env param)

    unfoldable pub terminate_node : NodeIdentityParam → Action (World F K) (Unit {0})
    terminate_node param = do
      answer ←
          send (λ h. env.deleted h client param.instance_id param.region)
            (delete_instance param.instance_id param.region)
      success ← check (wrapped "failed to terminate instance") answer
      (if success then pure tt else raise (failed "instance termination failed"))

    -- No region is given. An instance without addresses has empty ones.
    unfoldable pub get_node_status : NodeIdentityParam → Action (World F K) NodeStatus
    get_node_status param = do
      let ids = "[\"" <> param.instance_id <> "\"]"
      answer ← send (λ h. env.described h client ids) (describe_instances ids)
      instances ← check (wrapped "failed to describe instance") answer
      elim instances [
        | [] ↦ raise (failed "instance not found")
        | i ∷ rest ↦ pure (record {
          instance_id = i.instance_id;
          private_ip = first_text i.private_ip_address;
          public_ip = first_text i.public_ip_address;
        })
      ]
