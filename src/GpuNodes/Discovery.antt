-- ===== src/GpuNodes/Discovery.antt =====
-- `reconcileNodeDiscoveryJob`
use tensor_fusion_operator.Prelude.{
  String, ◌<>◌, List, [], ◌∷◌, ◌++◌, Option, none, some, Reply, done, fail, failed, wrapped,
  is_not_found, Action, ◌>>=◌, raise, pure, panic, check, ask, if◌then◌else◌,
}
use tensor_fusion_operator.Api.{
  NodeSelectorTerm, Container, GpuNode, GpuPool, NodeSelectorOperator, ComponentConfig,
  NamespacedName,
}
use tensor_fusion_operator.Worker.{new_meta}
use tensor_fusion_operator.GpuNodes.World.{
  NodeAffinity, TemplateSpec, Toleration, TolerationOperator, Job, Env, History, get_job,
  create_job,
}

abbrev pub node_discovery_env_name : String
node_discovery_env_name = "NODE_DISCOVERY_REPORT_GPU_NODE"

-- The term that asks for the Kubernetes node of a name.
abbrev pub on_node : String → NodeSelectorTerm
on_node name = record {
  match_expressions = [];
  match_fields =
      record { key = "metadata.name"; operator = NodeSelectorOperator.op_in; values = name ∷ [] }
      ∷ [];
}

-- The terms that the template asks for, of which one has to match.
abbrev pub required_of : Option NodeAffinity → List NodeSelectorTerm
required_of none = []
required_of (some a) = elim a.required [ none ↦ [] | some terms ↦ terms ]

abbrev pub required_terms : TemplateSpec → List NodeSelectorTerm
required_terms t = elim t.affinity [ none ↦ [] | some a ↦ required_of a.node_affinity ]

abbrev pub no_schedule : Toleration
no_schedule = record { key = "NoSchedule"; operator = TolerationOperator.exists }

-- The variable is added to the first container only.
abbrev pub report_to : String → List Container → List Container
report_to name [] = []
report_to name (c ∷ containers) =
    record c { env = c.env ++ record { name = node_discovery_env_name; value = name } ∷ [] }
    ∷ containers

unfoldable pub discovery_template : {Q : Type 0} → GpuNode Q → TemplateSpec → TemplateSpec
discovery_template gpunode t = record t {
  affinity = some (record {
    node_affinity = some (record {
      required = some (required_terms t ++ on_node gpunode.status.kubernetes_node_name ∷ []);
    });
  });
  tolerations = t.tolerations ++ no_schedule ∷ [];
  containers = report_to gpunode.meta.name t.containers;
}

module _ {Q : Type 0} (env : Env Q) where
  unfoldable pub discovery_job : GpuNode Q → TemplateSpec → Job
  unfolding discovery_template
  discovery_job gpunode t = record {
    meta = new_meta ("node-discovery-" <> gpunode.meta.name) env.namespace;
    ttl_seconds_after_finished = 36_000;
    template = discovery_template gpunode t;
  }

  abbrev pub job_key : GpuNode Q → NamespacedName
  job_key gpunode = record {
    name = "node-discovery-" <> gpunode.meta.name;
    namespace = env.namespace;
  }

  unfoldable pub create_missing : GpuNode Q → Job → Reply Job → Action (History Q) (Unit {0})
  create_missing gpunode job (done found) = pure tt
  create_missing gpunode job (fail e) =
      if is_not_found e
      then (do
        owned ← check (wrapped "set owner reference") (env.job_controlled_by gpunode job)
        created ← ask (λ h. env.job_created h owned) (create_job owned)
        check (wrapped "create node discovery job") created)
      else raise (wrapped "create node job" e)

  unfoldable pub ensure_job : GpuNode Q → Reply TemplateSpec → Action (History Q) (Unit {0})
  unfolding discovery_job create_missing
  ensure_job gpunode parsed = do
    t ← check (wrapped "unmarshal pod template") parsed
    found ← ask (λ h. env.job h (job_key gpunode)) (get_job (job_key gpunode))
    create_missing gpunode (discovery_job gpunode t) found

  -- A nil template is an error, a nil `NodeDiscovery` is dereferenced.
  abbrev pub discovery_raw : Option ComponentConfig → Action (History Q) String
  discovery_raw none = raise (failed "missing node discovery pod template in pool spec")
  discovery_raw (some config) = elim config.node_discovery [
    | none ↦ panic
    | some d ↦ elim d.pod_template [
      | none ↦ raise (failed "missing node discovery pod template in pool spec")
      | some raw ↦ pure raw
    ]
  ]

  unfoldable pub reconcile_node_discovery_job :
      GpuNode Q → GpuPool Q → Action (History Q) (Unit {0})
  unfolding ensure_job
  reconcile_node_discovery_job gpunode pool = do
    raw ← discovery_raw pool.spec.component_config
    ensure_job gpunode (env.unmarshal raw)
