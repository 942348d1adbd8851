-- ===== src/GpuNodes/Terminated.antt =====
-- What the deletion hook of a provisioned node did when it succeeded.
use tensor_fusion_operator.Prelude.{
  is_empty, label, true, false, ◌∷◌, Option, none, some, done, Reply-cases, ◌≡◌, ◌⊎◌, ok,
  Bool-cases, inl, inr,
}
use tensor_fusion_operator.Api.{
  GpuNode, GpuNodeManageMode, ComputingVendorConfig, finalizer, label_key_cluster_owner,
}
use tensor_fusion_operator.Utils.Finalizer.{handle_finalizer, handle_finalizer-Finalized}
use tensor_fusion_operator.GpuNodes.World.{
  Env, History, gpu_node_object, get_cluster, get_provider, terminate_node, update_gpu_node,
}
use tensor_fusion_operator.GpuNodes.Reconcile.{
  terminate_at, terminate_provisioned, delete_hook, identity, update,
}

module _ {Q : Type 0} (env : Env Q) where
  -- The calls from one history to another obtained a provider and terminated the node's instance there.
  pub record Terminated (node : GpuNode Q) (h h' : History Q) : Type 0 where
    pub vendor : ComputingVendorConfig
    pub named : is_empty node.status.node_info.instance_id ≡ false
    pub calls :
        h'
        ≡ terminate_node (identity node)
          ∷ get_provider vendor
          ∷ get_cluster (label label_key_cluster_owner node.meta.labels)
          ∷ h
    pub gone :
        env.node_terminated
          (get_provider vendor ∷ get_cluster (label label_key_cluster_owner node.meta.labels) ∷ h)
          (identity node)
        ≡ done tt

  terminate_at-Terminated :
      (node : GpuNode Q) (vendor : Option ComputingVendorConfig) (h h' : History Q)
      → terminate_at env node vendor
          (get_cluster (label label_key_cluster_owner node.meta.labels) ∷ h)
        ≡ (ok tt, h')
      → Terminated node h h'
  unfolding terminate_at
  terminate_at-Terminated node none h h' e = absurd (cc)
  terminate_at-Terminated node (some v) h h' e =
      let g = get_cluster (label label_key_cluster_owner node.meta.labels) ∷ h in
      elim (Reply-cases (env.provider g v)) [
        | inl (u, p) ↦ elim (Bool-cases (is_empty node.status.node_info.instance_id)) [
          | inl a ↦ let e' = rw (p, a) at e in absurd (cc)
          | inr a ↦ elim (Reply-cases (env.node_terminated (get_provider v ∷ g) (identity node))) [
            | inl (w, t) ↦
                let e' = rw (p, a, t) at e in record { vendor = v; named = a; calls = cc; gone = t }
            | inr (f, t) ↦ let e' = rw (p, a, t) at e in absurd (cc)
          ]
        ]
        | inr (f, p) ↦ let e' = rw p at e in absurd (cc)
      ]

  hook-Terminated :
      (node : GpuNode Q) (h h' : History Q)
      → node.spec.manage_mode ≡ GpuNodeManageMode.provisioned
      → delete_hook env node h ≡ (ok tt, h')
      → Terminated node h h'
  unfolding delete_hook terminate_provisioned
  hook-Terminated node h h' mode e =
      let name = label label_key_cluster_owner node.meta.labels in
      elim (Reply-cases (env.cluster h name)) [
        | inl (c, q) ↦ terminate_at-Terminated node c.spec.computing_vendor h h' (rw (mode, q) at e)
        | inr (f, q) ↦ let e' = rw (mode, q) at e in absurd (cc)
      ]

  -- When `HandleFinalizer` reports a provisioned GPU node as deleted, the node either had no finalizer any
  -- more and nothing was called, or its instance was terminated at the vendor, which confirmed it,
  -- before the one update that removes the finalizer, and no other call was made.
  pub provisioned-Terminated :
      (found node : GpuNode Q) (h h' : History Q)
      → found.spec.manage_mode ≡ GpuNodeManageMode.provisioned
      → handle_finalizer env.util gpu_node_object (update env) (delete_hook env) found h
        ≡ (ok (true, node), h')
      → ((env.util.contains_finalizer found.meta finalizer ≡ false) × (h' ≡ h))
        ⊎ ((mid : History Q) × Terminated found h mid
            × (h'
                ≡ update_gpu_node
                    (record found { meta = env.util.remove_finalizer found.meta finalizer })
                  ∷ mid))
  provisioned-Terminated found node h h' mode e =
      let (deleted, finalized) =
        handle_finalizer-Finalized env.util gpu_node_object (update env) (delete_hook env) found
          node h h' e in
      elim finalized [
        | inl (lacks, same, still) ↦ inl (lacks, still)
        | inr (mid, hooked, updated) ↦ inr (mid, hook-Terminated found h mid mode hooked, cc)
      ]
