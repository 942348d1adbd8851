-- ===== src/Pool/Capacity.antt =====
-- `reconcilePoolCurrentCapacityAndReadiness` of gpupool_controller.go.
use tensor_fusion_operator.Prelude.{
  String, Error, failed, wrapped, Action, ◌>>=◌, ask, check, ℕ, suc, Bool, List, [], ◌∷◌, all,
  length, if◌then◌else◌, eqb, ◌≡◌,
}
use tensor_fusion_operator.Prelude.Int.{ℤ, pos, ◌+ℤ◌, ◌-ℤ◌, int32}
use tensor_fusion_operator.Quantity.{Quantity}
use tensor_fusion_operator.Pool.World.{Env, History, get_pool, list_nodes, patch_pool_status}
use tensor_fusion_operator.Api.{label_key_owner, GpuNode, GpuPoolStatus, Phase, is_running}

-- The local variables of the loop.
pub record Sums (Q : Type 0) : Type 0 where
  pub total_gpus : ℤ
  pub ready_nodes : ℕ
  pub total_tflops : Q
  pub total_vram : Q
  pub virtual_tflops : Q
  pub virtual_vram : Q

abbrev start : (Q : Type 0) ⦃q : Quantity Q⦄ → Sums Q
start Q ⦃q⦄ = record {
  total_gpus = pos 0;
  ready_nodes = 0;
  total_tflops = q.zero;
  total_vram = q.zero;
  virtual_tflops = q.zero;
  virtual_vram = q.zero;
}

module _ {Q : Type 0} ⦃q : Quantity Q⦄ where
  open q use {value, add, value-add, value-zero}

  unfoldable pub sum_node : GpuNode Q → Sums Q → Sums Q
  sum_node node s = record {
    total_gpus = int32 (s.total_gpus +ℤ node.status.total_gpus);
    ready_nodes = if is_running node.status.phase then suc s.ready_nodes else s.ready_nodes;
    total_tflops = add s.total_tflops node.status.total_tflops;
    total_vram = add s.total_vram node.status.total_vram;
    virtual_tflops = add s.virtual_tflops node.status.virtual_tflops;
    virtual_vram = add s.virtual_vram node.status.virtual_vram;
  }

  unfoldable pub sum_nodes : List (GpuNode Q) → Sums Q → Sums Q
  unfolding sum_node
  sum_nodes [] s = s
  sum_nodes (node ∷ nodes) s = sum_nodes nodes (sum_node node s)

  -- The status that is patched.
  unfoldable pub with_capacity : List (GpuNode Q) → GpuPoolStatus Q → GpuPoolStatus Q
  unfolding sum_nodes
  with_capacity nodes status =
      let s = sum_nodes nodes (start Q) in
      let count = int32 (pos (length nodes)) in
      let ready = int32 (pos s.ready_nodes) in
      record status {
        phase = if eqb s.ready_nodes (length nodes) then Phase.running else Phase.pending;
        total_gpus = s.total_gpus;
        total_nodes = count;
        total_tflops = s.total_tflops;
        total_vram = s.total_vram;
        ready_nodes = ready;
        not_ready_nodes = int32 (count -ℤ ready);
        virtual_tflops = s.virtual_tflops;
        virtual_vram = s.virtual_vram;
      }

  abbrev pub sum_over : (GpuNode Q → Q) → List (GpuNode Q) → ℤ
  sum_over f [] = pos 0
  sum_over f (node ∷ nodes) = value (f node) +ℤ sum_over f nodes

  abbrev pub all_running : List (GpuNode Q) → Bool
  all_running nodes = all (λ (n : GpuNode Q). is_running n.status.phase) nodes

  abbrev pub count_running : List (GpuNode Q) → ℕ
  count_running [] = 0
  count_running (node ∷ nodes) =
      if is_running node.status.phase then suc (count_running nodes) else count_running nodes

  -- The sums of a loop that starts with the sums `s`.
  pub record Summed (nodes : List (GpuNode Q)) (s t : Sums Q) : Type 0 where
    pub tflops :
        value t.total_tflops ≡ value s.total_tflops +ℤ sum_over (λ n. n.status.total_tflops) nodes
    pub vram : value t.total_vram ≡ value s.total_vram +ℤ sum_over (λ n. n.status.total_vram) nodes
    pub virtual_tflops :
        value t.virtual_tflops
        ≡ value s.virtual_tflops +ℤ sum_over (λ n. n.status.virtual_tflops) nodes
    pub virtual_vram :
        value t.virtual_vram ≡ value s.virtual_vram +ℤ sum_over (λ n. n.status.virtual_vram) nodes

-- `fmt.Errorf("…: %v", err)` hides what the error was.
abbrev hidden : String → Error → Error
hidden text e = failed text

module _ {Q F : Type 0} ⦃q : Quantity Q⦄ (env : Env Q F) where
  unfoldable pub reconcile_pool_current_capacity_and_readiness :
      String → Action (History Q) (Unit {0})
  unfolding with_capacity
  reconcile_pool_current_capacity_and_readiness pool_name = do
    found ← ask (λ h. env.pool h pool_name) (get_pool pool_name)
    pool ← check (hidden "get pool failed") found
    listed ← ask (λ h. env.nodes h label_key_owner pool_name) (list_nodes label_key_owner pool_name)
    nodes ← check (hidden "list nodes of Pool failed") listed
    let pool' = record pool { status = with_capacity nodes pool.status }
    patched ← ask (λ h. env.pool_status_patched h pool') (patch_pool_status pool')
    check (wrapped "update pool status") patched
