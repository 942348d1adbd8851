-- ===== src/Nodes/Labels.antt =====
-- The pool label that a GPUNode gets, and the pool that the GPU node reconciler reads from its labels.
use tensor_fusion_operator.Prelude.{String, ◌<>◌, cut_prefix-append, Dict, [], ◌∷◌, ◌≡◌, ap}
use tensor_fusion_operator.Quantity.{Quantity}
use tensor_fusion_operator.Api.{GpuNode, GpuPool, pool_identifier_label}
use tensor_fusion_operator.CloudProvider.Types.{NodeCreationParam}
use tensor_fusion_operator.Pool.Provision.{new_gpu_node}
use tensor_fusion_operator.Pool.World
use tensor_fusion_operator.Nodes.World.{Env, Node}
use tensor_fusion_operator.Nodes.Reconcile.{generate_gpu_node}
use tensor_fusion_operator.GpuNodes.Reconcile.{name_or, pool_name_of}

pool_name_of-first :
    (name value : String) (labels : Dict String)
    → pool_name_of ((pool_identifier_label <> name, value) ∷ labels) ≡ name
pool_name_of-first name value labels =
    ap (λ o. name_or o (pool_name_of labels)) (cut_prefix-append pool_identifier_label name)

-- The GPU node reconciler reads from the labels of a GPUNode the very pool for which it was made: both
-- for the GPUNode that the node reconciler generates for a node in a pool, and for the one that the pool
-- reconciler creates to provision a node, when owner references leave the labels alone.
pub pool_name_of-generated :
    {Q F : Type 0} ⦃q : Quantity Q⦄ (env : Env Q) (pools : World.Env Q F)
    → ((p : GpuPool Q) (g : GpuNode Q) → (env.pool_owned p g).meta.labels ≡ g.meta.labels)
    → ((p : GpuPool Q) (g : GpuNode Q) → (pools.controlled_by p g).meta.labels ≡ g.meta.labels)
    → (node : Node) (pool : GpuPool Q) (cluster node_class : String) (param : NodeCreationParam Q)
      (cost : F)
    → (pool_name_of (generate_gpu_node env node pool).meta.labels ≡ pool.meta.name)
      × (pool_name_of (new_gpu_node pools pool cluster node_class param cost).meta.labels
          ≡ pool.meta.name)
unfolding generate_gpu_node new_gpu_node
pool_name_of-generated env pools owned controlled node pool cluster node_class param cost = (
  rw (owned pool _) (pool_name_of-first pool.meta.name "true" []),
  rw (controlled pool _) (pool_name_of-first pool.meta.name pool.meta.name []),
)
