-- ===== src/GpuNodes/Components.antt =====
-- What the answer before each call for a node's job, pod and status was.
use tensor_fusion_operator.Prelude.{
  ◌<>◌, String, refl, Option-cases, Reply-cases, String, is_empty, Bool, true, false, [], ◌∷◌,
  Option, none, some, Reply, done, fail, is_not_found, ◌>>=◌, Post, >>=-Post, ◌≡◌, Outcome, ok, err,
  panicked, Bool-cases, inl, inr, Error,
}
use tensor_fusion_operator.Api.{
  GpuNode, GpuPool, ComponentConfig, NamespacedName, Phase, Pod, is_running, is_pod_running,
}
use tensor_fusion_operator.GpuNodes.World.{
  TemplateSpec, Job, Call, Env, History, get_provider, terminate_node, get_job, create_job,
  create_or_update, get_pod, update_status,
}
use tensor_fusion_operator.GpuNodes.Discovery.{
  reconcile_node_discovery_job, ensure_job, create_missing, discovery_raw, discovery_job,
}
use tensor_fusion_operator.GpuNodes.Hypervisor.{
  ensure_pod, reconcile_hypervisor_pod, hypervisor_raw, hypervisor_pod,
}
use tensor_fusion_operator.GpuNodes.Reconcile.{
  observe, store_phase, report_phase, reconcile_components, in_phase,
}

module _ {Q : Type 0} (env : Env Q) where
  -- The names of the discovery job and of the hypervisor pod of a node.
  abbrev pub job_of : GpuNode Q → NamespacedName
  job_of node = record { name = "node-discovery-" <> node.meta.name; namespace = env.namespace }

  abbrev pub pod_of : GpuNode Q → NamespacedName
  pod_of node = record { name = "hypervisor-" <> node.meta.name; namespace = env.namespace }

  -- The job is the node's discovery job, from some template.
  abbrev pub JobOf : GpuNode Q → Job → Type 0
  JobOf node job =
      (t : TemplateSpec) × (env.job_controlled_by node (discovery_job env node t) ≡ done job)

  -- The last call asked for the job of the node, which is there, or created it.
  abbrev pub HasJob : GpuNode Q → History Q → Type 0
  HasJob node (get_job k ∷ h) = (k ≡ job_of node) × ((job : Job) × (env.job h k ≡ done job))
  HasJob node (create_job job ∷ h) = JobOf node job × (env.job_created h job ≡ done tt)
  HasJob node _ = ⊥

  abbrev pub JobMissing : GpuNode Q → History Q → Type 0
  JobMissing node (get_job k ∷ h) =
      (k ≡ job_of node) × ((e : Error) × (env.job h k ≡ fail e) × (is_not_found e ≡ true))
  JobMissing node _ = ⊥

  -- The last call read the hypervisor pod of the node, which runs, or does not.
  abbrev pub PodRuns : GpuNode Q → Bool → History Q → Type 0
  PodRuns node up (get_pod k ∷ h) =
      (k ≡ pod_of node)
      × ((pod : Pod) × (env.pod h k ≡ done pod) × (is_pod_running pod.status.phase ≡ up))
  PodRuns node up _ = ⊥

  abbrev pub HasProvider : History Q → Type 0
  HasProvider (get_provider v ∷ h) = env.provider h v ≡ done tt
  HasProvider _ = ⊥

  -- What stands right before a call that changes something; updates of the finalizers are free.
  abbrev pub Allowed : Call Q → History Q → Type 0
  Allowed (create_job job) h = (node : GpuNode Q) × JobOf node job × JobMissing node h
  Allowed (create_or_update pod) h =
      (node : GpuNode Q) × (pool : GpuPool Q) × (t : TemplateSpec) × (env.pod_controlled_by node
          (hypervisor_pod env node pool t)
        ≡ done pod)
      × HasJob node h
  Allowed (update_status node) h = PodRuns node (is_running node.status.phase) h
  Allowed (terminate_node id) h = HasProvider h × (is_empty id.instance_id ≡ false)
  Allowed _ h = Unit

  abbrev pub Justified : History Q → Type 0
  Justified [] = Unit
  Justified (c ∷ h) = Allowed c h × Justified h

  abbrev pub Ends : {A : Type 0} → Outcome A × History Q → Type 0
  Ends = Post Justified (λ _ h. Justified h)

  pub Ends-Justified : {A : Type 0} (o : Outcome A) (h : History Q) → Ends (o, h) → Justified h
  Ends-Justified (ok a) h j = j
  Ends-Justified (err e) h j = j
  Ends-Justified panicked h j = j

  create_missing-Post :
      (node : GpuNode Q) (t : TemplateSpec) (h : History Q)
      → Justified h
      → Post Justified
          (λ _ h'. HasJob node h' × Justified h')
          (create_missing env node
            (discovery_job env node t)
            (env.job h (job_of node))
            (get_job (job_of node) ∷ h))
  unfolding create_missing
  create_missing-Post node t h j =
      let k = job_of node in
      elim (Reply-cases (env.job h k)) [
        | inl (found, q) ↦ rw q ((refl, (found, q)), (tt, j))
        | inr (e, q) ↦ elim (Bool-cases (is_not_found e)) [
          | inl m ↦ elim (Reply-cases (env.job_controlled_by node (discovery_job env node t))) [
            | inl (owned, o) ↦ elim (Reply-cases (env.job_created (get_job k ∷ h) owned)) [
              | inl (u, c) ↦
                  rw (q, m, o, c) (((t, o), c), ((node, (t, o), (refl, (e, q, m))), (tt, j)))
              | inr (f, c) ↦ rw (q, m, o, c) ((node, (t, o), (refl, (e, q, m))), (tt, j))
            ]
            | inr (f, o) ↦ rw (q, m, o) (tt, j)
          ]
          | inr m ↦ rw (q, m) (tt, j)
        ]
      ]

  ensure_job-Post :
      (node : GpuNode Q) (parsed : Reply TemplateSpec) (h : History Q)
      → Justified h
      → Post Justified (λ _ h'. HasJob node h' × Justified h') (ensure_job env node parsed h)
  unfolding ensure_job
  ensure_job-Post node (done t) h j = create_missing-Post node t h j
  ensure_job-Post node (fail e) h j = j

  discovery-Post :
      (node : GpuNode Q) (pool : GpuPool Q) (h : History Q)
      → Justified h
      → Post Justified
          (λ _ h'. HasJob node h' × Justified h')
          (reconcile_node_discovery_job env node pool h)
  unfolding reconcile_node_discovery_job
  discovery-Post node pool h j =
      >>=-Post Justified (λ _ h'. Justified h') (λ _ h'. HasJob node h' × Justified h')
        (discovery_raw env pool.spec.component_config)
        (λ raw. ensure_job env node (env.unmarshal raw)) h (raw pool.spec.component_config)
        (λ raw h' k. ensure_job-Post node (env.unmarshal raw) h' k)
    where
      raw :
          (config : Option ComponentConfig)
          → Post Justified (λ _ h'. Justified h') (discovery_raw env config h)
      raw none = j
      raw (some config) = elim (Option-cases config.node_discovery) [
        | inl q ↦ rw q j
        | inr (d, q) ↦ elim (Option-cases d.pod_template) [
          | inl p ↦ rw (q, p) j
          | inr (text, p) ↦ rw (q, p) j
        ]
      ]

  -- The name that `reconcileHypervisorPod` returns is that of the node's pod.
  abbrev Named : GpuNode Q → String → History Q → Type 0
  Named node name h = (name ≡ "hypervisor-" <> node.meta.name) × Justified h

  ensure_pod-Post :
      (node : GpuNode Q) (pool : GpuPool Q) (parsed : Reply TemplateSpec) (h : History Q)
      → HasJob node h
      → Justified h
      → Post Justified (Named node) (ensure_pod env node pool parsed h)
  unfolding ensure_pod
  ensure_pod-Post node pool (fail e) h has j = j
  ensure_pod-Post node pool (done t) h has j =
      elim (Reply-cases (env.pod_controlled_by node (hypervisor_pod env node pool t))) [
        | inl (owned, o) ↦ elim (Reply-cases (env.pod_ensured h owned)) [
          | inl (u, p) ↦ rw (o, p) (refl, ((node, pool, t, o, has), j))
          | inr (e, p) ↦ rw (o, p) ((node, pool, t, o, has), j)
        ]
        | inr (e, o) ↦ rw o j
      ]

  hypervisor-Post :
      (node : GpuNode Q) (pool : GpuPool Q) (h : History Q)
      → HasJob node h
      → Justified h
      → Post Justified (Named node) (reconcile_hypervisor_pod env node pool h)
  unfolding reconcile_hypervisor_pod
  hypervisor-Post node pool h has j =
      >>=-Post Justified (λ _ h'. HasJob node h' × Justified h') (Named node)
        (hypervisor_raw env pool.spec.component_config)
        (λ raw. ensure_pod env node pool (env.unmarshal raw)) h (raw pool.spec.component_config)
        (λ raw h' k. ensure_pod-Post node pool (env.unmarshal raw) h' k.0 k.1)
    where
      raw :
          (config : Option ComponentConfig)
          → Post Justified (λ _ h'. HasJob node h' × Justified h') (hypervisor_raw env config h)
      raw none = j
      raw (some config) = elim (Option-cases config.hypervisor) [
        | inl q ↦ rw q j
        | inr (c, q) ↦ elim (Option-cases c.pod_template) [
          | inl p ↦ rw (q, p) j
          | inr (text, p) ↦ rw (q, p) (has, j)
        ]
      ]

  report_phase-Post :
      (node : GpuNode Q) (pod : Pod) (h : History Q)
      → env.pod h (pod_of node) ≡ done pod
      → Justified h
      → Ends (report_phase env node pod (get_pod (pod_of node) ∷ h))
  unfolding report_phase store_phase
  report_phase-Post node pod h read j =
      let k = pod_of node in
      elim (Bool-cases (is_pod_running pod.status.phase)) [
        | inl up ↦
            elim (Reply-cases
              (env.status_updated (get_pod k ∷ h) (in_phase env Phase.running node))) [
                | inl (u, s) ↦ rw (up, s) ((refl, (pod, read, up)), (tt, j))
                | inr (e, s) ↦ rw (up, s) ((refl, (pod, read, up)), (tt, j))
              ]
        | inr down ↦
            elim (Reply-cases
              (env.status_updated (get_pod k ∷ h) (in_phase env Phase.pending node))) [
                | inl (u, s) ↦ rw (down, s) ((refl, (pod, read, down)), (tt, j))
                | inr (e, s) ↦ rw (down, s) ((refl, (pod, read, down)), (tt, j))
              ]
      ]

  observe-Post :
      (node : GpuNode Q) (h : History Q)
      → Justified h
      → Ends (observe env node ("hypervisor-" <> node.meta.name) h)
  unfolding observe
  observe-Post node h j = elim (Reply-cases (env.pod h (pod_of node))) [
    | inl (pod, q) ↦ rw q (report_phase-Post node pod h q j)
    | inr (e, q) ↦ rw q (tt, j)
  ]

  pub reconcile_components-Post :
      (node : GpuNode Q) (pool : GpuPool Q) (h : History Q)
      → Justified h
      → Ends (reconcile_components env node pool h)
  unfolding reconcile_components
  reconcile_components-Post node pool h j =
      >>=-Post Justified (λ _ h'. HasJob node h' × Justified h') (λ _ h'. Justified h')
        (reconcile_node_discovery_job env node pool)
        (λ _. reconcile_hypervisor_pod env node pool >>= observe env node) h
        (discovery-Post node pool h j)
        (λ u h' k.
          >>=-Post Justified (Named node) (λ _ h''. Justified h'')
            (reconcile_hypervisor_pod env node pool) (observe env node) h'
            (hypervisor-Post node pool h' k.0 k.1)
            (λ name h'' (e, j''). rw e (observe-Post node h'' j'')))
