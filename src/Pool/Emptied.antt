-- ===== src/Pool/Emptied.antt =====
-- Which nodes the compaction takes away.
use tensor_fusion_operator.Prelude.{
  Bool, ◌&&◌, ◌⊎◌, Since, Outcome, ok, err, panicked, Since-trans, Reply, fail, ℕ, zero, suc, true,
  false, List, [], ◌∷◌, some, done, ◌≡◌, refl, inl, inr, Bool-cases, Option-cases, same, more, Only,
  >>=-Only, check-Only, ask-Only, emit-Only, ◌>>=◌, ◌>>◌, wrapped, ask, emit, if◌then◌else◌, check,
}
use tensor_fusion_operator.Prelude.Int.{◌-ℤ◌, int64, leb_ℤ}
use tensor_fusion_operator.Quantity.{Quantity}
use tensor_fusion_operator.Api.{
  GpuNode, GpuPool, GpuOrCpuResourceUnit, ProvisioningMode, is_running,
}
use tensor_fusion_operator.Pool.World.{
  Call, Env, History, list_connections, delete_gpu_node, update_gpu_node, mark_node, event,
}
use tensor_fusion_operator.Pool.Compaction.{
  compact_one, compact_all, could_be_terminated, destroying, delete_provisioned, mark_destroying,
  terminate, warm_resources, compact_idle, compact_unused, may_not_disrupt, is_protected, mode,
  is_provisioned,
}

module _ {Q F : Type 0} ⦃q : Quantity Q⦄ (env : Env Q F) (pool : GpuPool Q) where
  open q use {as_int64}

  -- What the pool has available, less all that the node has, is at least the warm-up amount; the amounts
  -- are read by `AsInt64` and subtracted in int64.
  abbrev pub Spares : Q → Q → Q → Type 0
  Spares warm available total =
      leb_ℤ (as_int64 warm) (int64 (as_int64 available -ℤ as_int64 total)) ≡ true

  -- A node that may be taken away: it does not bear the label against it, it runs, it had no connection
  -- when asked after the calls `at`, and without it the pool keeps its warm-up amounts.
  pub record Idle (node : GpuNode Q) (at : History Q) : Type 0 where
    pub not_labelled : may_not_disrupt node ≡ false
    pub running : is_running node.status.phase ≡ true
    pub unused : env.connections at node.meta.name ≡ done 0
    pub warm : GpuOrCpuResourceUnit Q
    pub warms : warm_resources env pool ≡ some warm
    pub tflops : Spares warm.tflops pool.status.available_tflops node.status.total_tflops
    pub vram : Spares warm.vram pool.status.available_vram node.status.total_vram

  -- The calls that the compaction may make for a node which is looked at after the calls `at`.
  abbrev pub Allowed : GpuNode Q → History Q → Call Q → Type 0
  Allowed node at (list_connections name) = name ≡ node.meta.name
  Allowed node at (event text) = Unit
  Allowed node at (delete_gpu_node n) =
      (n ≡ node) × Idle node at × (mode env pool ≡ some ProvisioningMode.provisioned)
  Allowed node at (update_gpu_node n) = (n ≡ destroying env node) × Idle node at
  Allowed node at (mark_node name) = (name ≡ node.status.kubernetes_node_name) × Idle node at
  Allowed node at _ = ⊥

  -- The calls for the nodes, one node after the other, until one fails or the list ends.
  abbrev pub Compacts : List (GpuNode Q) → History Q → History Q → Type 0
  Compacts [] h h' = h' ≡ h
  Compacts (node ∷ nodes) h h' =
      (mid : History Q) × Since (Allowed node h) h mid × ((h' ≡ mid) ⊎ Compacts nodes mid h')

  module _ (node : GpuNode Q) (at : History Q) where
    abbrev P : Call Q → Type 0
    P = Allowed node at

    spares : (a b : Bool) → a && b ≡ true → (a ≡ true) × (b ≡ true)
    spares true true h = (refl, refl)
    spares true false h = absurd (cc)
    spares false b h = absurd (cc)

    delete_provisioned-Only :
        Idle node at
        → mode env pool ≡ some ProvisioningMode.provisioned
        → Only P (delete_provisioned env node)
    unfolding delete_provisioned
    delete_provisioned-Only idle m =
        >>=-Only P (ask (λ h. env.gpu_node_deleted h node) (delete_gpu_node node))
          (check (wrapped "delete node"))
          (ask-Only P (λ h. env.gpu_node_deleted h node) (delete_gpu_node node) (refl, idle, m))
          (check-Only P (wrapped "delete node"))

    mark_destroying-Only : Idle node at → Only P (mark_destroying env node)
    unfolding mark_destroying
    mark_destroying-Only idle h =
        let name = node.status.kubernetes_node_name in
        >>=-Only P
          (ask (λ h. env.gpu_node_updated h (destroying env node))
            (update_gpu_node (destroying env node)))
          (λ u.
            check (wrapped "update node") u
            >> (ask (λ h. env.node_marked h name) (mark_node name)
                >>= check (wrapped "patch node")))
          (ask-Only P (λ h. env.gpu_node_updated h (destroying env node))
            (update_gpu_node (destroying env node)) (refl, idle))
          (λ u.
            >>=-Only P (check (wrapped "update node") u)
              (λ _.
                ask (λ h. env.node_marked h name) (mark_node name) >>= check (wrapped "patch node"))
              (check-Only P (wrapped "update node") u)
              (λ _.
                >>=-Only P (ask (λ h. env.node_marked h name) (mark_node name))
                  (check (wrapped "patch node"))
                  (ask-Only P (λ h. env.node_marked h name) (mark_node name) (refl, idle))
                  (check-Only P (wrapped "patch node"))))
          h

    choice-Only :
        (m : ProvisioningMode)
        → mode env pool ≡ some m
        → Idle node at
        → Only P
            (if is_provisioned m then delete_provisioned env node else mark_destroying env node)
    choice-Only ProvisioningMode.provisioned e idle = delete_provisioned-Only idle e
    choice-Only ProvisioningMode.auto_select e idle = mark_destroying-Only idle

    terminate-Only : Idle node at → Only P (terminate env pool node)
    unfolding terminate
    terminate-Only idle = elim (Option-cases (mode env pool)) [
      | inl e ↦ rw (terminate, e) (λ h. more (event "Compaction") tt same)
      | inr (m, e) ↦
          rw (terminate, e)
            (>>=-Only P (emit (event "Compaction"))
              (λ _.
                if is_provisioned m then delete_provisioned env node else mark_destroying env node)
              (emit-Only P (event "Compaction") tt) (λ _. choice-Only m e idle))
    ]

    compact_idle-Only :
        may_not_disrupt node ≡ false
        → is_running node.status.phase ≡ true
        → env.connections at node.meta.name ≡ done 0
        → Only P (compact_idle env pool node)
    unfolding compact_idle
    compact_idle-Only free up none_left = elim (Option-cases (warm_resources env pool)) [
      | inl e ↦ rw (compact_idle, e) (λ h. same)
      | inr (warm, e) ↦ elim (Bool-cases (could_be_terminated env pool node warm)) [
        | inl c ↦
            rw (compact_idle, e, c)
              (terminate-Only (
                let (t, v) = spares _ _ c in
                record {
                  not_labelled = free;
                  running = up;
                  unused = none_left;
                  warm = warm;
                  warms = e;
                  tflops = t;
                  vram = v;
                }))
        | inr c ↦ rw (compact_idle, e, c) (λ h. same)
      ]
    ]

    compact_unused-Only :
        may_not_disrupt node ≡ false
        → (n : ℕ) → env.connections at node.meta.name ≡ done n
        → Only P (compact_unused env pool node n)
    unfolding compact_unused
    compact_unused-Only free (suc n) e h' = same
    compact_unused-Only free zero e h' = elim (Bool-cases (is_running node.status.phase)) [
      | inl up ↦
          rw (compact_unused, up)
            (elim (Bool-cases (is_protected (env.now h') node)) [
              | inl young ↦ rw young same
              | inr old ↦ rw old (compact_idle-Only free up e h')
            ])
      | inr down ↦ rw (compact_unused, down) same
    ]

    counted-Only :
        may_not_disrupt node ≡ false
        → (r : Reply ℕ) → env.connections at node.meta.name ≡ r
        → Only P (
            check (wrapped "failed to list node GPU connections") r
            >>= compact_unused env pool node)
    counted-Only free (done n) e h' = compact_unused-Only free n e h'
    counted-Only free (fail error) e h' = same

    compact_one-Since : Since P at (compact_one env pool node at).1
    unfolding compact_one
    compact_one-Since = elim (Bool-cases (may_not_disrupt node)) [
      | inl labelled ↦ rw (compact_one, labelled) same
      | inr free ↦
          rw (compact_one, free)
            (Since-trans P (more (list_connections node.meta.name) refl same) (
              counted-Only free (env.connections at node.meta.name) refl
                (list_connections node.meta.name ∷ at)))
    ]

  -- The rest of the nodes are looked at where the first one has not failed.
  compacted :
      (node : GpuNode Q) (nodes : List (GpuNode Q)) (h : History Q) (o : Outcome (Unit {0}))
      (mid : History Q)
      → Since (Allowed node h) h mid
      → Compacts nodes mid (compact_all env pool nodes mid).1
      → Compacts
          (node ∷ nodes)
          h
          (((λ (g : History Q). (o, mid)) >> compact_all env pool nodes) h).1
  compacted node nodes h (ok u) mid first rest = (mid, first, inr rest)
  compacted node nodes h (err e) mid first rest = (mid, first, inl refl)
  compacted node nodes h panicked mid first rest = (mid, first, inl refl)

  -- Whatever the services answer, the loop of the compaction looks at the listed nodes one after the
  -- other, and deletes, marks as destroying or labels a node only if it does not bear the label against
  -- it, runs, had no connection when it was asked for, in this run and for this node, and leaves the
  -- pool its warm-up amounts in TFLOPS and in VRAM, as the integers that the code compares; a GPUNode
  -- is deleted only in the mode `Provisioned`. Apart from these calls it lists connections and records
  -- events.
  pub compact_all-Compacts :
      (nodes : List (GpuNode Q)) (h : History Q) → Compacts nodes h (compact_all env pool nodes h).1
  unfolding compact_all
  compact_all-Compacts [] h = refl
  compact_all-Compacts (node ∷ nodes) h =
      let (o, mid) = compact_one env pool node h in
      compacted node nodes h o mid (compact_one-Since node h) (compact_all-Compacts nodes mid)
