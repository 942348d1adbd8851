-- ===== src/GpuNodes/Hypervisor.antt =====
-- `reconcileHypervisorPod`
use tensor_fusion_operator.Prelude.{
  String, ◌<>◌, insert, [], ◌∷◌, ◌++◌, Option, none, some, Reply, wrapped, Action, ◌>>=◌, ◌>>◌,
  pure, panic, check, ask,
}
use tensor_fusion_operator.Api.{GpuNode, GpuPool, ComponentConfig, pool_identifier_label}
use tensor_fusion_operator.Worker.{new_meta}
use tensor_fusion_operator.GpuNodes.World.{
  TemplateSpec, HypervisorPod, Env, History, create_or_update,
}
use tensor_fusion_operator.GpuNodes.Discovery.{no_schedule}

module _ {Q : Type 0} (env : Env Q) where
  abbrev pub hypervisor_name : GpuNode Q → String
  hypervisor_name node = "hypervisor-" <> node.meta.name

  unfoldable pub hypervisor_pod : GpuNode Q → GpuPool Q → TemplateSpec → HypervisorPod
  hypervisor_pod node pool t =
      let meta = new_meta (hypervisor_name node) env.namespace in
      record {
        meta = record meta { labels = (pool_identifier_label <> pool.meta.name, "true") ∷ [] };
        spec = record t {
          node_selector =
              insert "kubernetes.io/hostname" node.status.kubernetes_node_name t.node_selector;
          tolerations = t.tolerations ++ no_schedule ∷ [];
        };
      }

  -- Nil configurations and templates are dereferenced.
  abbrev pub hypervisor_raw : Option ComponentConfig → Action (History Q) String
  hypervisor_raw none = panic
  hypervisor_raw (some config) = elim config.hypervisor [
    | none ↦ panic
    | some c ↦ elim c.pod_template [ none ↦ panic | some raw ↦ pure raw ]
  ]

  unfoldable pub ensure_pod : GpuNode Q → GpuPool Q → Reply TemplateSpec → Action (History Q) String
  unfolding hypervisor_pod
  ensure_pod node pool parsed = do
    t ← check (wrapped "failed to unmarshal pod template") parsed
    owned ←
        check (wrapped "failed to set controller reference")
          (env.pod_controlled_by node (hypervisor_pod node pool t))
    ensured ← ask (λ h. env.pod_ensured h owned) (create_or_update owned)
    check (wrapped "failed to create or update hypervisor pod") ensured
    pure (hypervisor_name node)

  -- The pool is never nil here: the caller passes the address of a variable.
  unfoldable pub reconcile_hypervisor_pod : GpuNode Q → GpuPool Q → Action (History Q) String
  unfolding ensure_pod
  reconcile_hypervisor_pod node pool = do
    raw ← hypervisor_raw pool.spec.component_config
    ensure_pod node pool (env.unmarshal raw)
