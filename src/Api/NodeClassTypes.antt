-- ===== src/Api/NodeClassTypes.antt =====
-- api/v1/gpunodeclass_types.go: the template of a vendor's instances.
use tensor_fusion_operator.Prelude.{String, List, Bool, Dict}

pub record NodeClassItemSelectorTerms : Type 0 where
  pub id : String
  pub name : String

pub record NodeClassBlockDeviceSettings : Type 0 where
  pub volume_size : String
  pub volume_type : String
  pub delete_on_termination : Bool
  pub encrypted : Bool

pub record NodeClassBlockDeviceMappings : Type 0 where
  pub device_name : String
  pub ebs : NodeClassBlockDeviceSettings

pub record GpuNodeClassSpec : Type 0 where
  pub launch_template : NodeClassItemSelectorTerms
  pub os_image_selector_terms : List NodeClassItemSelectorTerms
  pub security_group_selector_terms : List NodeClassItemSelectorTerms
  pub subnet_selector_terms : List NodeClassItemSelectorTerms
  pub block_device_mappings : List NodeClassBlockDeviceMappings
  pub tags : Dict String
  pub user_data : String

pub record GpuNodeClass : Type 0 where
  pub name : String
  pub spec : GpuNodeClassSpec
