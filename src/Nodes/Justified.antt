-- ===== src/Nodes/Justified.antt =====
-- What stands right before each changing call of the node reconciler.
use tensor_fusion_operator.Prelude.Int.{pos}
use tensor_fusion_operator.Prelude.{
  is_empty, label, true, List, [], ◌∷◌, Option, none, some, done, fail, Error, is_not_found,
  Outcome, ok, Post, ◌⊎◌, ◌≡◌,
}
use tensor_fusion_operator.Quantity.{Quantity}
use tensor_fusion_operator.Api.{GpuNode, GpuPool}
use tensor_fusion_operator.Pool.Provision.{initialize_status}
use tensor_fusion_operator.Nodes.World.{
  Call, Env, History, Node, get_gpu_node, update_node, list_pools, delete_gpu_node,
  create_or_update, update_gpu_node, update_status,
}
use tensor_fusion_operator.Nodes.Reconcile.{
  generate_gpu_node, get_matched_pool_name, on_kubernetes_node, provisioner_label_key,
  with_sync_annotation,
}

module _ {Q : Type 0} ⦃q : Quantity Q⦄ (env : Env Q) (node : Node) where
  -- The pools were listed, with this outcome of the match.
  abbrev pub Matched : Option (GpuPool Q) → History Q → Type 0
  Matched o (list_pools ∷ h) =
      (pools : List (GpuPool Q)) × (env.pools h ≡ done pools)
      × (get_matched_pool_name env node pools ≡ ok o)
  Matched o _ = ⊥

  -- The GPUNode of the node's name was asked for, after the match of a pool, and is not there.
  abbrev pub Absent : GpuPool Q → History Q → Type 0
  Absent pool (get_gpu_node n ∷ h) =
      (n ≡ node.meta.name)
      × Matched (some pool) h
      × ((e : Error) × (env.gpu_node h n ≡ fail e) × (is_not_found e ≡ true))
  Absent pool _ = ⊥

  abbrev pub Present : GpuNode Q → History Q → Type 0
  Present g (get_gpu_node n ∷ h) = (n ≡ node.meta.name) × (env.gpu_node h n ≡ done g)
  Present g _ = ⊥

  -- The GPUNode that the node's label names was read, and owns the node `n`.
  abbrev pub Provisioned : Node → History Q → Type 0
  Provisioned n (get_gpu_node k ∷ h) =
      (k ≡ label provisioner_label_key node.meta.labels)
      × ((g : GpuNode Q) × (env.gpu_node h k ≡ done g) × (n ≡ env.linked g node))
  Provisioned n _ = ⊥

  -- The status is that of the GPUNode just read, with the name of the node, and the node was just
  -- updated.
  abbrev pub AfterLink : GpuNode Q → History Q → Type 0
  AfterLink g (update_node n ∷ get_gpu_node k ∷ h) =
      (old : GpuNode Q) × (env.gpu_node h k ≡ done old) × (g ≡ on_kubernetes_node n.meta.name old)
  AfterLink g _ = ⊥

  -- The first status of a GPUNode that names no node yet.
  abbrev pub FirstStatus : GpuNode Q → Type 0
  FirstStatus g =
      (old : GpuNode Q) × (is_empty old.status.kubernetes_node_name ≡ true)
      × (g ≡ on_kubernetes_node node.meta.name (initialize_status q.zero q.zero (pos 0) old))

  abbrev pub Allowed : Call Q → History Q → Type 0
  Allowed (delete_gpu_node n) h = (n ≡ node.meta.name) × Matched none h
  Allowed (create_or_update g) h =
      (pool : GpuPool Q) × Absent pool h
      × (env.gpu_node_owned node (generate_gpu_node env node pool) ≡ done g)
  Allowed (update_gpu_node g) h =
      (old : GpuNode Q) × Present old h × (g ≡ with_sync_annotation (env.now_text h) old)
  Allowed (update_node n) h = Provisioned n h
  Allowed (update_status g) h =
      (g.status.kubernetes_node_name ≡ node.meta.name) × (AfterLink g h ⊎ FirstStatus g)
  Allowed _ h = Unit

  abbrev pub Justified : History Q → Type 0
  Justified [] = Unit
  Justified (c ∷ h) = Allowed c h × Justified h

  abbrev Ends : {A : Type 0} → Outcome A × History Q → Type 0
  Ends = Post Justified (λ _ h. Justified h)
