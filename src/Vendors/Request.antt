-- ===== src/Vendors/Request.antt =====
-- `handleNodeClassAndExtraParams` and the request that `CreateNode` sends.
use tensor_fusion_operator.Prelude.{
  String, ◌<>◌, ◌==◌, is_empty, label, Bool, true, false, List, [], ◌∷◌, map, none, some, Dict,
  Reply, done, fail, if◌then◌else◌,
}
use tensor_fusion_operator.Prelude.Int.{pos}
use tensor_fusion_operator.Api.{NodeClassItemSelectorTerms, NodeClassBlockDeviceMappings}
use tensor_fusion_operator.CloudProvider.Types.{NodeCreationParam}
use tensor_fusion_operator.Vendors.World.{DataDisk, Env, RunInstancesRequest}

abbrev pub provisioner_name_placeholder : String
provisioner_name_placeholder = "__GPU_NODE_RESOURCE_NAME__"

abbrev pub first_id : List NodeClassItemSelectorTerms → String
first_id [] = ""
first_id (t ∷ terms) = t.id

abbrev pub or_else : String → String → String
or_else text default = if is_empty text then default else text

-- `strconv.FormatBool`
abbrev pub format_bool : Bool → String
format_bool true = "true"
format_bool false = "false"

abbrev pub data_disk_of : String → NodeClassBlockDeviceMappings → DataDisk
data_disk_of level m = record {
  disk_name = m.device_name;
  size = m.ebs.volume_size;
  category = m.ebs.volume_type;
  performance_level = level;
  delete_with_instance = format_bool m.ebs.delete_on_termination;
  encrypted = format_bool m.ebs.encrypted;
}

module _ {F K Q : Type 0} (env : Env F K) (param : NodeCreationParam Q) where
  abbrev pub extra : String → String
  extra key = label key param.extra_params

  -- The fields that depend on no parse, with no spot instance.
  unfoldable pub base_request : RunInstancesRequest F
  base_request = record {
    launch_template_id = param.node_class.spec.launch_template.id;
    image_id = first_id param.node_class.spec.os_image_selector_terms;
    instance_type = param.instance_type;
    instance_name = param.node_name;
    region_id = param.region;
    amount = "1";
    security_group_id = first_id param.node_class.spec.security_group_selector_terms;
    v_switch_id = first_id param.node_class.spec.subnet_selector_terms;
    data_disk =
        map (data_disk_of (or_else (extra "dataDiskPerformanceLevel") "PL0"))
          param.node_class.spec.block_device_mappings;
    internet_max_bandwidth_out = 100;
    internet_charge_type = "PayByTraffic";
    description = "GPU node managed by TensorFusion NodeClass: " <> param.node_class.name;
    user_data = env.encode (
        env.replace_all param.node_class.spec.user_data provisioner_name_placeholder
          param.node_name);
    spot_price_limit = none;
    spot_strategy = "";
    spot_duration = none;
    spot_interruption_behavior = "";
    key_pair_name = extra "keyPairName";
    system_disk_category = or_else (extra "systemDiskCategory") "cloud_essd";
    system_disk_size = or_else (extra "systemDiskSize") "40";
    tag = [];
  }

  -- The extra parameters ask for an instance that is not on demand.
  abbrev pub is_spot : Bool
  is_spot =
      let capacity_type = extra "karpenter.sh/capacity-type" in
      if is_empty capacity_type
      then false
      else (if capacity_type == "OnDemand" then false else true)

  unfoldable pub with_price_limit : RunInstancesRequest F → Reply (RunInstancesRequest F)
  with_price_limit request =
      if is_empty (extra "spotPriceLimit")
      then done (record request { spot_strategy = "SpotAsPriceGo" })
      else elim (env.parse_float (extra "spotPriceLimit")) [
        | fail e ↦ fail e
        | done limit ↦
            done (record request {
              spot_price_limit = some limit;
              spot_strategy = "SpotWithPriceLimit";
            })
      ]

  unfoldable pub with_duration : RunInstancesRequest F → Reply (RunInstancesRequest F)
  with_duration request =
      let named = record request {
        spot_interruption_behavior = extra "spotInterruptionBehavior";
      } in
      if is_empty (extra "spotDuration")
      then done (record named { spot_duration = some (pos 0) })
      else elim (env.atoi (extra "spotDuration")) [
        | fail e ↦ fail e
        | done duration ↦ done (record named { spot_duration = some duration })
      ]

  abbrev pub then_duration : Reply (RunInstancesRequest F) → Reply (RunInstancesRequest F)
  then_duration (fail e) = fail e
  then_duration (done request) = with_duration request

  abbrev pub request_if : Bool → Reply (RunInstancesRequest F)
  request_if true = then_duration (with_price_limit base_request)
  request_if false = done base_request

  unfoldable pub request_of : Reply (RunInstancesRequest F)
  request_of = request_if is_spot

  abbrev pub tags : Dict String → Dict String
  tags ordered =
      ("managed-by", "tensor-fusion.ai")
      ∷ ("tensor-fusion.ai/node-name", param.node_name)
      ∷ ("tensor-fusion.ai/node-class", param.node_class.name)
      ∷ ordered
