-- ===== src/Vendors/Aws.antt =====
-- internal/cloudprovider/aws/ec2.go: `NewAWSGPUNodeProvider`, `TestConnection`, `CreateNode`, `TerminateNode` and `GetNodeStatus`.
use tensor_fusion_operator.Prelude.{
  String, is_empty, List, [], ◌∷◌, Option, none, some, Dict, Reply, failed, wrapped, same_error, ok,
  Action, ◌>>=◌, ◌>>◌, raise, pure, panic, check, if◌then◌else◌, ℕ,
}
use tensor_fusion_operator.Api.{ComputingVendorConfig}
use tensor_fusion_operator.CloudProvider.Types.{NodeCreationParam, NodeIdentityParam}
use tensor_fusion_operator.Vendors.Request.{first_id}
use tensor_fusion_operator.Vendors.Alibaba.{NodeStatus}

-- `ec2.RunInstancesInput`
pub record RunInstancesInput : Type 0 where
  pub image_id : String
  pub instance_type : String
  pub min_count : ℕ
  pub max_count : ℕ
  pub tags : Dict String

-- An instance of the SDK; its fields are pointers.
pub record AwsInstance : Type 0 where
  pub instance_id : Option String
  pub launch_time : Option String
  pub private_ip_address : Option String
  pub public_ip_address : Option String

pub data AwsCall : Type 0 where
  describe_all : AwsCall
  run_instances : RunInstancesInput → AwsCall
  terminate_instances : String → AwsCall
  describe_instances : String → AwsCall

-- What the SDK does: the instances are given by reservation. `K` is the type of clients.
pub record AwsEnv (K : Type 0) : Type 0 where
  pub new_from_config : String → K
  pub all_described : List AwsCall → K → Reply (Unit {0})
  pub run : List AwsCall → K → RunInstancesInput → Reply (Unit {0})
  pub terminated : List AwsCall → K → String → Reply (Unit {0})
  pub described : List AwsCall → K → String → Reply (List (List AwsInstance))
  pub tag_order : List AwsCall → Dict String → Dict String

abbrev pub dereferenced : {W A : Type 0} → Option A → Action W A
dereferenced none = panic
dereferenced (some a) = pure a

abbrev pub first_instance : List (List AwsInstance) → Option AwsInstance
first_instance [] = none
first_instance ([] ∷ reservations) = none
first_instance ((i ∷ instances) ∷ reservations) = some i

module _ {K : Type 0} (env : AwsEnv K) where
  abbrev ask_aws :
      {A : Type 0} → (List AwsCall → Reply A) → AwsCall → Action (List AwsCall) (Reply A)
  ask_aws answer c calls = (ok (answer calls), c ∷ calls)

  abbrev pub new_aws_gpu_node_provider : ComputingVendorConfig → K
  new_aws_gpu_node_provider config = env.new_from_config config.params.default_region

  module _ (client : K) where
    unfoldable pub test_connection : Action (List AwsCall) (Unit {0})
    test_connection = do
      described ← ask_aws (λ calls. env.all_described calls client) describe_all
      check same_error described

    -- The response is not looked at, and the status is empty.
    unfoldable pub run_input : RunInstancesInput → Action (List AwsCall) NodeStatus
    run_input input = do
      answer ← ask_aws (λ calls. env.run calls client input) (run_instances input)
      check (wrapped "failed to create instance") answer
      pure (record { instance_id = ""; private_ip = ""; public_ip = "" })

    module _ {Q : Type 0} (param : NodeCreationParam Q) where
      abbrev pub input_of : List AwsCall → RunInstancesInput
      input_of calls = record {
        image_id = first_id param.node_class.spec.os_image_selector_terms;
        instance_type = param.instance_type;
        min_count = 1;
        max_count = 1;
        tags =
            ("managed-by", "tensor-fusion.ai")
            ∷ ("tensor-fusion.ai/node-name", param.node_name)
            ∷ ("tensor-fusion.ai/node-class", param.node_class.name)
            ∷ env.tag_order calls param.node_class.spec.tags;
      }

      -- No term, and a first term without an id, are both refused.
      unfoldable pub create_node : Action (List AwsCall) NodeStatus
      create_node calls =
          if is_empty (first_id param.node_class.spec.os_image_selector_terms)
          then raise (failed "no OS image selector terms found") calls
          else run_input (input_of calls) calls

    unfoldable pub terminate_node : NodeIdentityParam → Action (List AwsCall) (Unit {0})
    terminate_node param = do
      answer ←
          ask_aws (λ calls. env.terminated calls client param.instance_id)
            (terminate_instances param.instance_id)
      check (wrapped "failed to terminate instance") answer

    abbrev pub status_of : Option AwsInstance → Action (List AwsCall) NodeStatus
    status_of none = raise (failed "instance not found")
    status_of (some i) = do
      id ← dereferenced i.instance_id
      time ← dereferenced i.launch_time
      private ← dereferenced i.private_ip_address
      public ← dereferenced i.public_ip_address
      pure (record { instance_id = id; private_ip = private; public_ip = public })

    unfoldable pub get_node_status : NodeIdentityParam → Action (List AwsCall) NodeStatus
    get_node_status param = do
      answer ←
          ask_aws (λ calls. env.described calls client param.instance_id)
            (describe_instances param.instance_id)
      reservations ← check (wrapped "failed to describe instance") answer
      status_of (first_instance reservations)
