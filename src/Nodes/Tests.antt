-- ===== src/Nodes/Tests.antt =====
-- The theorems of the node reconciler at concrete inputs.
use tensor_fusion_operator.Prelude.{
  ◌≡◌, refl, none, some, done, fail, not_found, [], ◌∷◌, List, true, false, Option,
}
use tensor_fusion_operator.Prelude.Int.{ℤ, pos}
use tensor_fusion_operator.Api.{GpuPool, Phase, ProvisioningMode, NodeSelectorTerm}
use tensor_fusion_operator.Samples.{int_quantity, named, node_in, pool_in}
use tensor_fusion_operator.Pool.Provision.{new_gpu_node}
use tensor_fusion_operator.Pool.Tests.{env as provisioning, param}
use tensor_fusion_operator.GpuNodes.Reconcile.{pool_name_of}
use tensor_fusion_operator.Nodes.World.{Env, Node}
use tensor_fusion_operator.Nodes.Reconcile.{generate_gpu_node, get_matched_pool_name}
use tensor_fusion_operator.Nodes.Matched.{Describes, get_matched_pool_name_lem}
use tensor_fusion_operator.Nodes.Justified.{Justified}
use tensor_fusion_operator.Nodes.Labels.{pool_name_of-generated}

abbrev node : Node
node = record { meta = named "n" }

abbrev selects : Option (List NodeSelectorTerm) → GpuPool ℤ → GpuPool ℤ
selects selector p =
    let s = p.spec in
    record p {
      spec = record s {
        node_manager_config = some (record {
          provisioning_mode = ProvisioningMode.auto_select;
          node_provisioner = none;
          node_selector = selector;
          compaction_period = none;
        });
      };
    }

-- The first selects nothing, the second every node.
abbrev pools : List (GpuPool ℤ)
pools =
    selects none (pool_in "a" Phase.running (pos 1))
    ∷ selects (some []) (pool_in "b" Phase.running (pos 1))
    ∷ []

-- A server that knows the node and the pools, and no GPUNode.
abbrev env : Env ℤ
env = record {
  node = λ h n. done node;
  gpu_node = λ h n. fail not_found;
  node_updated = λ h n. done tt;
  pools = λ h. done pools;
  gpu_node_deleted = λ h n. done tt;
  gpu_node_ensured = λ h g. done g;
  gpu_node_updated = λ h g. done g;
  status_updated = λ h g. done tt;
  match_terms = λ n s. elim s [ none ↦ done false | some terms ↦ done true ];
  linked = λ g n. n;
  pool_owned = λ p g. g;
  gpu_node_owned = λ n g. done g;
  new_gpu_node = λ n.
      let g = node_in n Phase.unset (pos 0) in
      let s = g.status in record g { status = record s { kubernetes_node_name = "" } };
  now_text = λ h. "now";
}

get_matched_pool_name_lem_example : Describes env node pools (get_matched_pool_name env node pools)
get_matched_pool_name_lem_example = get_matched_pool_name_lem env node pools

pool_name_of-generated_example :
    (pool_name_of (generate_gpu_node env node (pool_in "a" Phase.running (pos 1))).meta.labels
      ≡ "a")
    × (pool_name_of
          (new_gpu_node provisioning
            (pool_in "a" Phase.running (pos 1))
            "cluster"
            "class"
            param
            (pos 1)).meta.labels
        ≡ "a")
pool_name_of-generated_example =
    pool_name_of-generated env provisioning (λ p g. refl) (λ p g. refl) node
      (pool_in "a" Phase.running (pos 1)) "cluster" "class" param (pos 1)
