-- ===== src/GpuNodes/World.antt =====
-- The pods and jobs of the GPU node reconciler, the calls that it makes and what answers them.
use tensor_fusion_operator.Prelude.{String, List, Option, Dict, Reply, ℕ}
use tensor_fusion_operator.Api.{
  Container, ComputingVendorConfig, GpuNode, GpuPool, NamespacedName, NodeSelectorTerm, ObjectMeta,
  Pod, TensorFusionCluster,
}
use tensor_fusion_operator.CloudProvider.Types.{NodeIdentityParam}
use tensor_fusion_operator.Utils.Finalizer.{ControllerUtil, Object}

-- Kubernetes' pod templates, the part that the reconciler reads or writes;
-- `required` is `RequiredDuringSchedulingIgnoredDuringExecution`, the terms of the node selector.
pub record NodeAffinity : Type 0 where
  pub required : Option (List NodeSelectorTerm)

pub record Affinity : Type 0 where
  pub node_affinity : Option NodeAffinity

pub data TolerationOperator : Type 0 where
  exists equal : TolerationOperator

pub record Toleration : Type 0 where
  pub key : String
  pub operator : TolerationOperator

pub record TemplateSpec : Type 0 where
  pub affinity : Option Affinity
  pub node_selector : Dict String
  pub tolerations : List Toleration
  pub containers : List Container

pub record Job : Type 0 where
  pub meta : ObjectMeta
  pub ttl_seconds_after_finished : ℕ
  pub template : TemplateSpec

pub record HypervisorPod : Type 0 where
  pub meta : ObjectMeta
  pub spec : TemplateSpec

pub data Call (Q : Type 0) : Type 0 where
  get_gpu_node : String → Call Q
  update_gpu_node : GpuNode Q → Call Q
  get_cluster : String → Call Q
  get_provider : ComputingVendorConfig → Call Q
  terminate_node : NodeIdentityParam → Call Q
  get_pool : String → Call Q
  get_job : NamespacedName → Call Q
  create_job : Job → Call Q
  create_or_update : HypervisorPod → Call Q
  get_pod : NamespacedName → Call Q
  update_status : GpuNode Q → Call Q

abbrev pub History : Type 0 → Type 0
History Q = List (Call Q)

-- `label_order` is the order of a `range` over the labels, `namespace` is `utils.CurrentNamespace()`,
-- and `unmarshal` parses a pod template.
pub record Env (Q : Type 0) : Type 0 where
  pub gpu_node : History Q → String → Reply (GpuNode Q)
  pub gpu_node_updated : History Q → GpuNode Q → Reply (GpuNode Q)
  pub cluster : History Q → String → Reply (TensorFusionCluster Q)
  pub provider : History Q → ComputingVendorConfig → Reply (Unit {0})
  pub node_terminated : History Q → NodeIdentityParam → Reply (Unit {0})
  pub pool : History Q → String → Reply (GpuPool Q)
  pub job : History Q → NamespacedName → Reply Job
  pub job_created : History Q → Job → Reply (Unit {0})
  pub pod_ensured : History Q → HypervisorPod → Reply (Unit {0})
  pub pod : History Q → NamespacedName → Reply Pod
  pub status_updated : History Q → GpuNode Q → Reply (Unit {0})
  pub label_order : History Q → Dict String → Dict String
  pub namespace : String
  pub unmarshal : String → Reply TemplateSpec
  pub job_controlled_by : GpuNode Q → Job → Reply Job
  pub pod_controlled_by : GpuNode Q → HypervisorPod → Reply HypervisorPod
  pub util : ControllerUtil

abbrev pub gpu_node_object : {Q : Type 0} → Object (GpuNode Q)
gpu_node_object = record { meta = λ n. n.meta; with_meta = λ n m. record n { meta = m } }
