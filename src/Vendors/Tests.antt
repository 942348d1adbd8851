-- ===== src/Vendors/Tests.antt =====
-- The theorems of the providers at a request for one node.
use tensor_fusion_operator.Prelude.{
  ◌≡◌, refl, [], ◌∷◌, none, done, fail, failed, ok, err, true, false, ◌⊎◌,
}
use tensor_fusion_operator.Prelude.Int.{ℤ, pos}
use tensor_fusion_operator.Api.{ComputingVendorConfig}
use tensor_fusion_operator.Api.{GpuNodeClass, NodeClassItemSelectorTerms}
use tensor_fusion_operator.CloudProvider.Types.{NodeCreationParam}
use tensor_fusion_operator.Vendors.World.{Env, RunInstancesRequest, RunInstancesResponse, World}
use tensor_fusion_operator.Vendors.Request.{
  base_request, request_of, with_duration, with_price_limit,
}
use tensor_fusion_operator.Vendors.Alibaba.{
  NodeStatus, connect, create_node, created, get_access_key_or_secret_from_path,
  new_alibaba_gpu_node_provider, run_request, test_connection,
}
use tensor_fusion_operator.Vendors.Requested.{ForNode}
use tensor_fusion_operator.Vendors.Created.{
  Deletes, Refused, Sent, create_node_lem, terminate_node-create_node,
}
use tensor_fusion_operator.Vendors.Aws.{AwsEnv}
use tensor_fusion_operator.Vendors.Unidentified.{Unidentified, aws_create_node_lem}
use tensor_fusion_operator.Vendors.Cached.{new_alibaba_gpu_node_provider-again}

-- Every call succeeds, and no text is a number.
abbrev env : Env ℤ ℤ
env = record {
  key_file = λ h path. done path;
  client_made = λ h region ak sk. done (pos 1);
  regions_described = λ h client. done tt;
  run = λ h client r. done (record {
    is_success = true;
    request_id = "request-0";
    instance_ids = "i-0" ∷ [];
    text = "";
  });
  deleted = λ h client id region. done false;
  described = λ h client ids. done [];
  tag_order = λ h ts. ts;
  parse_float = λ t. fail (failed t);
  trim_space = λ t. t;
  atoi = λ t. fail (failed t);
  encode = λ t. t;
  replace_all = λ t old new. t;
}

abbrev term : NodeClassItemSelectorTerms
term = record { id = "lt-0"; name = "" }

abbrev class : GpuNodeClass
class = record {
  name = "class";
  spec = record {
    launch_template = term;
    os_image_selector_terms = [];
    security_group_selector_terms = term ∷ [];
    subnet_selector_terms = [];
    block_device_mappings = [];
    tags = ("team", "ml") ∷ [];
    user_data = "join";
  };
}

abbrev param : NodeCreationParam ℤ
param = record {
  node_name = "node-0";
  region = "cn-hangzhou";
  zone = "zone";
  instance_type = "ecs.gn7";
  node_class = class;
  capacity_type = "Spot";
  tflops_offered = pos 5;
  vram_offered = pos 5;
  gpu_device_offered = pos 1;
  extra_params = ("karpenter.sh/capacity-type", "Spot") ∷ [];
}

-- A price limit that is no number.
abbrev dear : NodeCreationParam ℤ
dear = record param {
  extra_params = ("karpenter.sh/capacity-type", "Spot") ∷ ("spotPriceLimit", "much") ∷ [];
}

abbrev fresh : World ℤ ℤ
fresh = record { calls = []; cached_client = none }

abbrev vendor : ComputingVendorConfig
vendor = record {
  name = "ali";
  type = "alibaba";
  auth_type = "accessKey";
  params = record {
    default_region = "cn-hangzhou";
    access_key_path = "ak";
    secret_key_path = "sk";
    extra_params = [];
  };
}

abbrev without_keys : ComputingVendorConfig
without_keys = record vendor { auth_type = "serviceAccountRole" }

abbrev status : NodeStatus
status = record { instance_id = "request-0"; private_ip = ""; public_ip = "" }

dear_refused : (create_node env (pos 1) dear fresh).0 ≡ err (failed "much")
unfolding create_node request_of with_price_limit
dear_refused = refl

create_node_lem_example : Refused env (pos 1) param fresh ⊎ Sent env (pos 1) param fresh
create_node_lem_example = create_node_lem env (pos 1) param fresh

reports : (create_node env (pos 1) param fresh).0 ≡ ok status
unfolding create_node request_of with_price_limit with_duration run_request created base_request
reports = refl

terminate_node-create_node_example :
    (r : RunInstancesRequest ℤ) × (response : RunInstancesResponse) × ForNode env param r
    × Deletes env (pos 1) param fresh status reports fresh r response
terminate_node-create_node_example =
    terminate_node-create_node env (pos 1) param fresh status reports fresh

connected :
    new_alibaba_gpu_node_provider env vendor fresh
    ≡ (ok (pos 1), (new_alibaba_gpu_node_provider env vendor fresh).1)
unfolding new_alibaba_gpu_node_provider connect test_connection get_access_key_or_secret_from_path
connected = refl

new_alibaba_gpu_node_provider-again_example :
    new_alibaba_gpu_node_provider env without_keys
      (new_alibaba_gpu_node_provider env vendor fresh).1
    ≡ (ok (pos 1), (new_alibaba_gpu_node_provider env vendor fresh).1)
new_alibaba_gpu_node_provider-again_example =
    new_alibaba_gpu_node_provider-again env vendor without_keys (pos 1) fresh
      (new_alibaba_gpu_node_provider env vendor fresh).1 connected

abbrev aws : AwsEnv ℤ
aws = record {
  new_from_config = λ region. pos 1;
  all_described = λ calls client. done tt;
  run = λ calls client input. done tt;
  terminated = λ calls client id. done tt;
  described = λ calls client id. done [];
  tag_order = λ calls ts. ts;
}

-- The class with an image.
abbrev imaged : NodeCreationParam ℤ
imaged = record param {
  node_class = record {
    name = "class";
    spec = record (param.node_class.spec) { os_image_selector_terms = term ∷ [] };
  };
}

aws_create_node_lem_example : Unidentified aws (pos 1) imaged []
aws_create_node_lem_example = aws_create_node_lem aws (pos 1) imaged []
