-- ===== src/Pool/Compaction.antt =====
-- internal/controller/gpupool_compaction_controller.go
use tensor_fusion_operator.Prelude.{
  ℕ, zero, suc, String, ◌<>◌, ◌==◌, Bool, true, false, List, [], ◌∷◌, lookup, Option, none, some,
  is_empty, is_not_found, wrapped, done, fail, Action, ◌>>=◌, ◌>>◌, pure, raise, panic, check, ask,
  emit, if◌then◌else◌, ◌&&◌,
}
use tensor_fusion_operator.Prelude.Int.{ℤ, pos, ◌+ℤ◌, ◌-ℤ◌, int64, leb_ℤ, ltb_ℤ}
use tensor_fusion_operator.Quantity.{Quantity}
use tensor_fusion_operator.Api.{
  GpuNode, GpuPool, GpuOrCpuResourceUnit, NodeManagerConfig, Phase, ProvisioningMode, is_running,
  pool_identifier_label, scheduling_do_not_disrupt_label,
}
use tensor_fusion_operator.Pool.World.{
  Env, History, get_pool, list_nodes, list_connections, delete_gpu_node, update_gpu_node, mark_node,
  event,
}

abbrev pub new_node_protection_seconds : ℤ
new_node_protection_seconds = pos 300

-- In nanoseconds.
abbrev pub default_compaction_duration : ℤ
default_compaction_duration = pos 60_000_000_000

-- `parse_duration` is `time.ParseDuration`.
unfoldable pub get_compaction_duration : (String → Option ℤ) → Option NodeManagerConfig → ℤ
get_compaction_duration parse_duration none = default_compaction_duration
get_compaction_duration parse_duration (some config) = elim config.compaction_period [
  | none ↦ default_compaction_duration
  | some period ↦
      if is_empty period
      then default_compaction_duration
      else elim (parse_duration period) [ none ↦ default_compaction_duration | some d ↦ d ]
]

abbrev pub may_not_disrupt : {Q : Type 0} → GpuNode Q → Bool
may_not_disrupt node = elim (lookup scheduling_do_not_disrupt_label node.meta.labels) [
  | none ↦ false
  | some v ↦ v == "true"
]

-- `CreationTimestamp.After(now + 5 minutes)`
abbrev pub is_protected : {Q : Type 0} → ℤ → GpuNode Q → Bool
is_protected now node = ltb_ℤ (now +ℤ new_node_protection_seconds) node.meta.creation_timestamp

abbrev pub is_provisioned : ProvisioningMode → Bool
is_provisioned ProvisioningMode.provisioned = true
is_provisioned _ = false

module _ {Q F : Type 0} ⦃q : Quantity Q⦄ (env : Env Q F) where
  open q use {as_int64}

  abbrev Handler : Type 0 → Type 0
  Handler A = Action (History Q) A

  -- What remains available without the node is at least the warm-up amount.
  abbrev pub could_be_terminated : GpuPool Q → GpuNode Q → GpuOrCpuResourceUnit Q → Bool
  could_be_terminated pool node warm =
      leb_ℤ (as_int64 warm.tflops)
        (int64 (as_int64 pool.status.available_tflops -ℤ as_int64 node.status.total_tflops))
      && leb_ℤ (as_int64 warm.vram)
          (int64 (as_int64 pool.status.available_vram -ℤ as_int64 node.status.total_vram))

  abbrev pub destroying : GpuNode Q → GpuNode Q
  destroying node =
      let st = node.status in record node { status = record st { phase = Phase.destroying } }

  unfoldable pub delete_provisioned : GpuNode Q → Handler (Unit {0})
  delete_provisioned node = do
    answer ← ask (λ h. env.gpu_node_deleted h node) (delete_gpu_node node)
    check (wrapped "delete node") answer

  unfoldable pub mark_destroying : GpuNode Q → Handler (Unit {0})
  mark_destroying node = do
    updated ←
        ask (λ h. env.gpu_node_updated h (destroying node)) (update_gpu_node (destroying node))
    check (wrapped "update node") updated
    marked ←
        ask (λ h. env.node_marked h node.status.kubernetes_node_name)
          (mark_node node.status.kubernetes_node_name)
    check (wrapped "patch node") marked

  abbrev pub warm_resources : GpuPool Q → Option (GpuOrCpuResourceUnit Q)
  warm_resources pool = elim pool.spec.capacity_config [
    | none ↦ none
    | some config ↦ config.warm_resources
  ]

  abbrev pub mode : GpuPool Q → Option ProvisioningMode
  mode pool = elim pool.spec.node_manager_config [
    | none ↦ none
    | some config ↦ some config.provisioning_mode
  ]

  unfoldable pub terminate : GpuPool Q → GpuNode Q → Handler (Unit {0})
  unfolding delete_provisioned mark_destroying
  terminate pool node = emit (event "Compaction") >> (elim (mode pool) [
    | none ↦ panic
    | some m ↦ if is_provisioned m then delete_provisioned node else mark_destroying node
  ])

  -- Without a capacity or without warm resources the code dereferences a nil pointer.
  unfoldable pub compact_idle : GpuPool Q → GpuNode Q → Handler (Unit {0})
  unfolding terminate
  compact_idle pool node = elim (warm_resources pool) [
    | none ↦ panic
    | some warm ↦ if could_be_terminated pool node warm then terminate pool node else pure tt
  ]

  -- With the number of the node's connections
  unfoldable pub compact_unused : GpuPool Q → GpuNode Q → ℕ → Handler (Unit {0})
  unfolding compact_idle
  compact_unused pool node (suc n) = pure tt
  compact_unused pool node zero =
      if is_running node.status.phase
      then (λ h. if is_protected (env.now h) node then pure tt h else compact_idle pool node h)
      else pure tt

  unfoldable pub compact_one : GpuPool Q → GpuNode Q → Handler (Unit {0})
  unfolding compact_unused
  compact_one pool node = if may_not_disrupt node then pure tt else (do
    listed ← ask (λ h. env.connections h node.meta.name) (list_connections node.meta.name)
    count ← check (wrapped "failed to list node GPU connections") listed
    compact_unused pool node count)

  unfoldable pub compact_all : GpuPool Q → List (GpuNode Q) → Handler (Unit {0})
  unfolding compact_one
  compact_all pool [] = pure tt
  compact_all pool (node ∷ nodes) = compact_one pool node >> compact_all pool nodes

  unfoldable pub check_node_compaction : GpuPool Q → Handler (Unit {0})
  unfolding compact_all
  check_node_compaction pool = do
    let label = pool_identifier_label <> pool.meta.name
    listed ← ask (λ h. env.nodes h label "true") (list_nodes label "true")
    nodes ← check (wrapped "failed to list nodes") listed
    compact_all pool nodes

  -- The answer is the time after which the request comes back, if it does.
  unfoldable pub reconcile_compaction : (String → Option ℤ) → String → Handler (Option ℤ)
  unfolding check_node_compaction get_compaction_duration
  reconcile_compaction parse_duration name = do
    answer ← ask (λ h. env.pool h name) (get_pool name)
    elim answer [
      | fail e ↦ if is_not_found e then pure none else raise e
      | done pool ↦
          check_node_compaction pool
          >> pure (some (get_compaction_duration parse_duration pool.spec.node_manager_config))
    ]
