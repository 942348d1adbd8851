-- ===== src/GpuNodes/Tests.antt =====
-- The theorems of the GPU node reconciler at concrete inputs.
use tensor_fusion_operator.Prelude.{
  ◌≡◌, refl, none, some, done, fail, not_found, [], ◌∷◌, false, ◌⊎◌,
}
use tensor_fusion_operator.Prelude.Int.{ℤ, pos}
use tensor_fusion_operator.Api.{
  NodeSelectorTerm, GpuNode, GpuPool, Phase, PodPhase, ComputingVendorConfig, NodeSelectorOperator,
  finalizer,
}
use tensor_fusion_operator.Samples.{cluster_of_one, list_util, node_in, pool_in}
use tensor_fusion_operator.Worker.{new_pod}
use tensor_fusion_operator.Utils.Finalizer.{handle_finalizer, finalize, update_object}
use tensor_fusion_operator.GpuNodes.World.{
  Env, History, TemplateSpec, gpu_node_object, update_gpu_node,
}
use tensor_fusion_operator.GpuNodes.Reconcile.{
  delete_hook, terminate_at, terminate_provisioned, update,
}
use tensor_fusion_operator.GpuNodes.Components.{Justified}
use tensor_fusion_operator.GpuNodes.Terminated.{Terminated, provisioned-Terminated}

abbrev vendor : ComputingVendorConfig
vendor = record {
  name = "mock";
  type = "mock";
  auth_type = "accessKey";
  params = record {
    default_region = "";
    access_key_path = "";
    secret_key_path = "";
    extra_params = [];
  };
}

-- A term of the user's template.
abbrev on_arm : NodeSelectorTerm
on_arm = record {
  match_expressions =
      record {
        key = "kubernetes.io/arch";
        operator = NodeSelectorOperator.op_in;
        values = "arm64" ∷ [];
      }
      ∷ [];
  match_fields = [];
}

abbrev template : TemplateSpec
template = record {
  affinity = some (record { node_affinity = some (record { required = some (on_arm ∷ []) }) });
  node_selector = [];
  tolerations = [];
  containers = record { name = "main"; env = [] } ∷ [];
}

abbrev pool : GpuPool ℤ
pool =
    let p = pool_in "a" Phase.running (pos 1) in
    let s = p.spec in
    record p {
      spec = record s {
        component_config = some (record {
          worker = none;
          hypervisor = some (record { pod_template = some "{}" });
          node_discovery = some (record { pod_template = some "{}" });
          client = none;
        });
      };
    }

abbrev kept_node : GpuNode ℤ
kept_node =
    let n = node_in "n" Phase.pending (pos 1) in
    let m = n.meta in
    record n {
      meta = record m {
        labels = ("tensor-fusion.ai/pool-a", "a") ∷ [];
        finalizers = finalizer ∷ [];
      };
    }

-- A provisioned node that is being deleted.
abbrev leaving_node : GpuNode ℤ
leaving_node =
    let m = kept_node.meta in
    let st = kept_node.status in
    let info = st.node_info in
    record kept_node {
      meta = record m { deletion_timestamp = some (pos 5) };
      status = record st { node_info = record info { instance_id = "i-1"; region = "cn" } };
    }

-- A server that knows the node, its pool and a running hypervisor pod, and has no discovery job yet.
abbrev env : Env ℤ
env = record {
  gpu_node = λ h n. done kept_node;
  gpu_node_updated = λ h n. done n;
  cluster = λ h n.
      let s = cluster_of_one.spec in
      done (record cluster_of_one { spec = record s { computing_vendor = some vendor } });
  provider = λ h v. done tt;
  node_terminated = λ h i. done tt;
  pool = λ h n. done pool;
  job = λ h k. fail not_found;
  job_created = λ h j. done tt;
  pod_ensured = λ h p. done tt;
  pod = λ h k.
      let p = new_pod k (record { node_selector = []; containers = [] }) in
      done (record p { status = record { phase = PodPhase.running; pod_ip = "" } });
  status_updated = λ h n. done tt;
  label_order = λ h d. d;
  namespace = "tensor-fusion";
  unmarshal = λ t. done template;
  job_controlled_by = λ n j. done j;
  pod_controlled_by = λ n p. done p;
  util = list_util;
}

abbrev let_go : GpuNode ℤ
let_go = record leaving_node { meta = list_util.remove_finalizer leaving_node.meta finalizer }

provisioned-Terminated_example :
    ((list_util.contains_finalizer leaving_node.meta finalizer ≡ false)
      × ((handle_finalizer env.util gpu_node_object
            (update env)
            (delete_hook env)
            leaving_node
            []).1
          ≡ []))
    ⊎ ((mid : History ℤ) × Terminated env leaving_node [] mid
        × ((handle_finalizer env.util gpu_node_object
              (update env)
              (delete_hook env)
              leaving_node
              []).1
            ≡ update_gpu_node let_go ∷ mid))
unfolding handle_finalizer finalize update_object delete_hook terminate_provisioned terminate_at
provisioned-Terminated_example = provisioned-Terminated env leaving_node let_go [] _ refl refl
