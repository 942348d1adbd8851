-- ===== src/Vendors/World.antt =====
-- The node class, Alibaba's requests and responses, the calls of its SDK and what answers them.
use tensor_fusion_operator.Prelude.{String, List, Option, Bool, Dict, Reply, ℕ}
use tensor_fusion_operator.Prelude.Int.{ℤ}

pub record DataDisk : Type 0 where
  pub disk_name : String
  pub size : String
  pub category : String
  pub performance_level : String
  pub delete_with_instance : String
  pub encrypted : String

-- `ecs.RunInstancesRequest`; `F` is the type of float64 values.
pub record RunInstancesRequest (F : Type 0) : Type 0 where
  pub launch_template_id : String
  pub image_id : String
  pub instance_type : String
  pub instance_name : String
  pub region_id : String
  pub amount : String
  pub security_group_id : String
  pub v_switch_id : String
  pub data_disk : List DataDisk
  pub internet_max_bandwidth_out : ℕ
  pub internet_charge_type : String
  pub description : String
  pub user_data : String
  pub spot_price_limit : Option F
  pub spot_strategy : String
  pub spot_duration : Option ℤ
  pub spot_interruption_behavior : String
  pub key_pair_name : String
  pub system_disk_category : String
  pub system_disk_size : String
  pub tag : Dict String

-- `ecs.RunInstancesResponse`: the id of the request, and those of the instances.
pub record RunInstancesResponse : Type 0 where
  pub is_success : Bool
  pub request_id : String
  pub instance_ids : List String
  pub text : String

pub record Instance : Type 0 where
  pub instance_id : String
  pub public_ip_address : List String
  pub private_ip_address : List String

pub data Call (F : Type 0) : Type 0 where
  read_key : String → Call F
  new_client : String → Call F
  describe_regions : Call F
  run_instances : RunInstancesRequest F → Call F
  delete_instance : String → String → Call F  -- the instance and the region
  describe_instances : String → Call F

abbrev pub History : Type 0 → Type 0
History F = List (Call F)

-- `K` is the type of SDK clients. An answer of `deleted` tells whether the response is a success.
pub record Env (F K : Type 0) : Type 0 where
  pub key_file : History F → String → Reply String
  pub client_made : History F → String → String → String → Reply K
  pub regions_described : History F → K → Reply (Unit {0})
  pub run : History F → K → RunInstancesRequest F → Reply RunInstancesResponse
  pub deleted : History F → K → String → String → Reply Bool
  pub described : History F → K → String → Reply (List Instance)
  pub tag_order : History F → Dict String → Dict String
  pub parse_float : String → Reply F
  pub trim_space : String → String
  pub atoi : String → Reply ℤ
  pub encode : String → String  -- base64
  pub replace_all : String → String → String → String

-- The calls so far, and the package's variable `cachedClient`.
pub record World (F K : Type 0) : Type 0 where
  pub calls : History F
  pub cached_client : Option K
