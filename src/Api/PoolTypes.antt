-- ===== src/Api/PoolTypes.antt =====
-- `GPUPool`.
use tensor_fusion_operator.Prelude.{String, List, Option}
use tensor_fusion_operator.Prelude.Int.{ℤ}
use tensor_fusion_operator.Api.Metadata.{ObjectMeta, Phase}

pub record GpuOrCpuResourceUnit (Q : Type 0) : Type 0 where
  pub tflops : Q
  pub vram : Q

pub record CapacityConfig (Q : Type 0) : Type 0 where
  pub min_resources : Option (GpuOrCpuResourceUnit Q)
  pub max_resources : Option (GpuOrCpuResourceUnit Q)
  pub warm_resources : Option (GpuOrCpuResourceUnit Q)

pub data ProvisioningMode : Type 0 where
  provisioned auto_select : ProvisioningMode

pub data NodeRequirementKey : Type 0 where
  instance_type architecture gpu_architecture os region zone capacity_type : NodeRequirementKey
  instance_family instance_size : NodeRequirementKey

-- `op_in` is the operator `In`.
pub data NodeSelectorOperator : Type 0 where
  op_in op_exists op_does_not_exist op_gt op_lt : NodeSelectorOperator

pub record Requirement : Type 0 where
  pub key : NodeRequirementKey
  pub operator : NodeSelectorOperator
  pub values : List String

pub record NodeSelectorRequirement : Type 0 where
  pub key : String
  pub operator : NodeSelectorOperator
  pub values : List String

pub record NodeSelectorTerm : Type 0 where
  pub match_expressions : List NodeSelectorRequirement
  pub match_fields : List NodeSelectorRequirement

pub record NodeProvisioner : Type 0 where
  pub node_class : String
  pub gpu_requirements : List Requirement

pub record NodeManagerConfig : Type 0 where
  pub provisioning_mode : ProvisioningMode
  pub node_provisioner : Option NodeProvisioner
  pub node_selector : Option (List NodeSelectorTerm)  -- the terms of the node selector
  pub compaction_period : Option String  -- `NodeCompaction.Period`, where there is one

-- The pod templates are raw JSON texts.
pub record WorkerConfig : Type 0 where
  pub pod_template : Option String

pub record HypervisorConfig : Type 0 where
  pub pod_template : Option String

pub record NodeDiscoveryConfig : Type 0 where
  pub pod_template : Option String

pub record ClientConfig : Type 0 where
  pub operator_endpoint : String
  pub patch_to_pod : Option String
  pub patch_to_container : Option String

pub record ComponentConfig : Type 0 where
  pub worker : Option WorkerConfig
  pub hypervisor : Option HypervisorConfig
  pub node_discovery : Option NodeDiscoveryConfig
  pub client : Option ClientConfig

pub record GpuPoolSpec (Q : Type 0) : Type 0 where
  pub capacity_config : Option (CapacityConfig Q)
  pub node_manager_config : Option NodeManagerConfig
  pub component_config : Option ComponentConfig

pub record GpuPoolStatus (Q : Type 0) : Type 0 where
  pub phase : Phase
  pub total_nodes : ℤ
  pub total_gpus : ℤ
  pub ready_nodes : ℤ
  pub not_ready_nodes : ℤ
  pub total_tflops : Q
  pub total_vram : Q
  pub virtual_tflops : Q
  pub virtual_vram : Q
  pub available_tflops : Q
  pub available_vram : Q

pub record GpuPool (Q : Type 0) : Type 0 where
  pub meta : ObjectMeta
  pub spec : GpuPoolSpec Q
  pub status : GpuPoolStatus Q
