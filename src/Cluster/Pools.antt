-- ===== src/Cluster/Pools.antt =====
-- `reconcileGPUPool` of internal/controller/tensorfusioncluster_controller.go: the pools of the spec
-- are created or updated, and the owned pools that the spec does not name are deleted.
use tensor_fusion_operator.Prelude.{
  String, ◌<>◌, ◌==◌, is_empty, Bool, true, false, ◌||◌, List, [], ◌∷◌, ◌++◌, any, none, some,
  if◌then◌else◌, Dict, lookup, insert, Error, wrapped, Reply, ok, done, fail, Action, ◌>>=◌, pure,
  raise, check, ask,
}
use tensor_fusion_operator.Api.{GpuPool, GpuPoolDefinition, TensorFusionCluster, label_key_owner}
use tensor_fusion_operator.Cluster.World.{
  list_pools, create_pool, update_pool, delete_pool, History, Env,
}

-- The pool has an owner reference with the cluster's name. Without references, that is for `nil`, it
-- has not; else the reference that no loop has found has an empty name.
unfoldable pub is_owned : {Q : Type 0} → String → GpuPool Q → Bool
is_owned name pool = elim pool.meta.owner_references [
  | [] ↦ false
  | ref ∷ refs ↦ any (λ r. r == name) (ref ∷ refs) || is_empty name
]

-- `existingGPUPools`
unfoldable pub existing_from :
    {Q : Type 0} → String → List (GpuPool Q) → Dict (GpuPool Q) → Dict (GpuPool Q)
unfolding is_owned
existing_from name [] existing = existing
existing_from name (pool ∷ pools) existing =
    existing_from name pools
      (if is_owned name pool then insert pool.meta.name pool existing else existing)

abbrev pub key_of : {Q : Type 0} → TensorFusionCluster Q → GpuPoolDefinition Q → String
key_of tfc def = tfc.meta.name <> "-" <> def.name

abbrev with_labels : Dict String → Dict String → Dict String
with_labels [] labels = labels
with_labels ((k, v) ∷ rest) labels = with_labels rest (insert k v labels)

-- The errors so far and whether anything changed.
pub record Tally : Type 0 where
  pub errors : List Error
  pub changed : Bool

abbrev pub no_errors : Tally
no_errors = record { errors = []; changed = false }

-- `errors = append(errors, fmt.Errorf("…: %w", err))`, where there is an error.
unfoldable pub noted : {A : Type 0} → String → Bool → Reply A → Tally → Tally
noted text changed (done a) t = record t { changed = changed || t.changed }
noted text changed (fail e) t = record {
  errors = t.errors ++ wrapped text e ∷ [];
  changed = changed || t.changed;
}

module _ {Q F : Type 0} (env : Env Q F) where
  abbrev pub Handler : Type 0 → Type 0
  Handler A = Action (History Q) A

  unfoldable pub new_gpu_pool : TensorFusionCluster Q → GpuPoolDefinition Q → GpuPool Q
  new_gpu_pool tfc def =
      let pool = env.new_pool (key_of tfc def) in
      record pool {
        meta = record (pool.meta) {
          labels = with_labels tfc.meta.labels ((label_key_owner, tfc.meta.name) ∷ []);
        };
        spec = def.spec_template;
      }

  -- The creation, with the answer of `SetControllerReference`, whose error skips it.
  unfoldable pub create_with :
      TensorFusionCluster Q → GpuPoolDefinition Q → Tally → Reply (GpuPool Q) → Handler Tally
  unfolding noted
  create_with tfc def t (fail e) =
      pure (noted {A = Unit {0}} "failed to set controller reference" false (fail e) t)
  create_with tfc def t (done pool) = do
    answer ← ask (λ h. env.pool_created h pool) (create_pool pool)
    pure (noted ("failed to create GPUPool " <> key_of tfc def) true answer t)

  unfoldable pub update_changed :
      TensorFusionCluster Q → GpuPoolDefinition Q → GpuPool Q → Tally → Handler Tally
  unfolding noted
  update_changed tfc def pool t = if env.spec_equal pool.spec def.spec_template then pure t else (do
    answer ←
        ask (λ h. env.pool_updated h (record pool { spec = def.spec_template }))
          (update_pool (record pool { spec = def.spec_template }))
    pure (noted ("failed to update GPUPool " <> key_of tfc def) true answer t))

  unfoldable pub ensure_one :
      TensorFusionCluster Q → Dict (GpuPool Q) → GpuPoolDefinition Q → Tally → Handler Tally
  unfolding create_with new_gpu_pool update_changed
  ensure_one tfc existing def t = elim (lookup (key_of tfc def) existing) [
    | none ↦ create_with tfc def t (env.controlled_by tfc (new_gpu_pool tfc def))
    | some pool ↦ update_changed tfc def pool t
  ]

  -- The code updates an existing pool in place: what the map holds afterwards, where the update is
  -- the first call after the history.
  unfoldable pub corrected : GpuPool Q → Reply (GpuPool Q) → GpuPool Q
  corrected pool (done stored) = stored
  corrected pool (fail e) = pool

  unfoldable pub existing_after :
      TensorFusionCluster Q → Dict (GpuPool Q) → GpuPoolDefinition Q → History Q → Dict (GpuPool Q)
  unfolding corrected
  existing_after tfc existing def h = elim (lookup (key_of tfc def) existing) [
    | none ↦ existing
    | some pool ↦
        let pool' = record pool { spec = def.spec_template } in
        if env.spec_equal pool.spec def.spec_template
        then existing
        else insert (key_of tfc def) (corrected pool' (env.pool_updated h pool')) existing
  ]

  -- The loop over `tfc.Spec.GPUPools`, which changes the map as it goes; the answer has the map.
  unfoldable pub ensure_all :
      TensorFusionCluster Q
      → Dict (GpuPool Q)
      → List (GpuPoolDefinition Q)
      → Tally
      → Handler (Tally × Dict (GpuPool Q))
  unfolding ensure_one existing_after
  ensure_all tfc existing [] t h = (ok (t, existing), h)
  ensure_all tfc existing (def ∷ defs) t h =
      (ensure_one tfc existing def t >>= ensure_all tfc (existing_after tfc existing def h) defs) h

  abbrev pub in_spec : TensorFusionCluster Q → String → Bool
  in_spec tfc name = any (λ (def : GpuPoolDefinition Q). key_of tfc def == name) tfc.spec.gpu_pools

  unfoldable pub delete_one : TensorFusionCluster Q → (String × GpuPool Q) → Tally → Handler Tally
  unfolding noted
  delete_one tfc (name, pool) t = if in_spec tfc name then pure t else (do
    answer ← ask (λ h. env.pool_deleted h pool) (delete_pool pool)
    pure (noted ("failed to delete GPUPool " <> name) true answer t))

  -- The loop over the map of existing pools, in the order `in_map_order` gives.
  unfoldable pub delete_all :
      TensorFusionCluster Q → List (String × GpuPool Q) → Tally → Handler Tally
  unfolding delete_one
  delete_all tfc [] t = pure t
  delete_all tfc (entry ∷ rest) t = do t' ← delete_one tfc entry t; delete_all tfc rest t'

  -- The first of the errors is returned.
  unfoldable pub first_error : Tally → Handler Bool
  first_error t = elim t.errors [
    | [] ↦ pure t.changed
    | e ∷ es ↦ raise (wrapped "reconcile pool in tensor-fusion cluster failed" e)
  ]

  -- What follows on the listing.
  unfoldable pub apply_spec : TensorFusionCluster Q → List (GpuPool Q) → Handler Bool
  unfolding ensure_all delete_all first_error existing_from
  apply_spec tfc pools = do
    let existing = existing_from tfc.meta.name pools []
    (t, updated) ← ensure_all tfc existing tfc.spec.gpu_pools no_errors
    t' ← (λ h. delete_all tfc (env.in_map_order h updated) t h)
    first_error t'

  unfoldable pub reconcile_gpu_pool : TensorFusionCluster Q → Handler Bool
  unfolding apply_spec
  reconcile_gpu_pool tfc = do
    listed ← ask (λ h. env.pools h tfc.meta.name) (list_pools tfc.meta.name)
    pools ← check (wrapped "failed to list GPUPools") listed
    apply_spec tfc pools
