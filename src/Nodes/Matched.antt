-- ===== src/Nodes/Matched.antt =====
-- Which pool a node belongs to.
use tensor_fusion_operator.Prelude.{
  Bool, true, false, List, [], ◌∷◌, ◌++◌, Option, none, some, Outcome, ok, err, panicked, All, ◌≡◌,
  refl, ap, Reply, done, fail, Reply-cases, Option-cases, inl, inr,
}
use tensor_fusion_operator.Quantity.{Quantity}
use tensor_fusion_operator.Api.{GpuPool, NodeManagerConfig}
use tensor_fusion_operator.Nodes.World.{Env, Node}
use tensor_fusion_operator.Nodes.Reconcile.{get_matched_pool_name, match_one}

module _ {Q : Type 0} ⦃q : Quantity Q⦄ (env : Env Q) (node : Node) where
  -- The pool has a node manager configuration, and the library's matcher gives this answer for its
  -- node selector.
  abbrev pub Selects : Reply Bool → GpuPool Q → Type 0
  Selects answer pool =
      (config : NodeManagerConfig) × (pool.spec.node_manager_config ≡ some config)
      × (env.match_terms node config.node_selector ≡ answer)

  -- What a match of one pool with this outcome means.
  abbrev pub Means : GpuPool Q → Outcome Bool → Type 0
  Means pool (ok b) = Selects (done b) pool
  Means pool (err e) = Selects (fail e) pool
  Means pool panicked = pool.spec.node_manager_config ≡ none

  -- The first pool of a list that does not plainly fail to match, and its outcome.
  abbrev pub FirstIs : List (GpuPool Q) → GpuPool Q → Outcome Bool → Type 0
  FirstIs pools p o =
      (before : List (GpuPool Q)) × (after : List (GpuPool Q)) × (pools ≡ before ++ p ∷ after)
      × All (Selects (done false)) before
      × Means p o

  abbrev pub Describes : List (GpuPool Q) → Outcome (Option (GpuPool Q)) → Type 0
  Describes pools (ok none) = All (Selects (done false)) pools
  Describes pools (ok (some p)) = FirstIs pools p (ok true)
  Describes pools (err e) = (p : GpuPool Q) × FirstIs pools p (err e)
  Describes pools panicked = (p : GpuPool Q) × FirstIs pools p panicked

  match_one-Means : (pool : GpuPool Q) → Means pool (match_one env node pool)
  unfolding match_one
  match_one-Means pool = elim (Option-cases pool.spec.node_manager_config) [
    | inl a ↦ rw a refl
    | inr (config, a) ↦ elim (Reply-cases (env.match_terms node config.node_selector)) [
      | inl (b, m) ↦ rw (a, match_one, m) (config, refl, m)
      | inr (e, m) ↦ rw (a, match_one, m) (config, refl, m)
    ]
  ]

  FirstIs-skip :
      (pools : List (GpuPool Q)) (x p : GpuPool Q) (o : Outcome Bool)
      → Selects (done false) x
      → FirstIs pools p o
      → FirstIs (x ∷ pools) p o
  FirstIs-skip pools x p o h (before, after, split, skipped, found) =
      (x ∷ before, after, ap (λ l. x ∷ l) split, (h, skipped), found)

  Describes-skip :
      (pools : List (GpuPool Q)) (x : GpuPool Q) (o : Outcome (Option (GpuPool Q)))
      → Selects (done false) x
      → Describes pools o
      → Describes (x ∷ pools) o
  Describes-skip pools x (ok none) h d = (h, d)
  Describes-skip pools x (ok (some p)) h d = FirstIs-skip pools x p (ok true) h d
  Describes-skip pools x (err e) h (p, d) = (p, FirstIs-skip pools x p (err e) h d)
  Describes-skip pools x panicked h (p, d) = (p, FirstIs-skip pools x p panicked h d)

  judged :
      (pool : GpuPool Q) (pools : List (GpuPool Q)) (o : Outcome Bool)
      → match_one env node pool ≡ o
      → Means pool o
      → Describes pools (get_matched_pool_name env node pools)
      → Describes (pool ∷ pools) (get_matched_pool_name env node (pool ∷ pools))
  unfolding get_matched_pool_name
  judged pool pools (ok true) h m rest = rw (h, get_matched_pool_name) ([], pools, refl, tt, m)
  judged pool pools (ok false) h m rest =
      rw (h, get_matched_pool_name)
        (Describes-skip pools pool (get_matched_pool_name env node pools) m rest)
  judged pool pools (err e) h m rest =
      rw (h, get_matched_pool_name) (pool, ([], pools, refl, tt, m))
  judged pool pools panicked h m rest =
      rw (h, get_matched_pool_name) (pool, ([], pools, refl, tt, m))

  -- `getMatchedPoolName` answers the first pool whose node selector matches the node, or no pool if none
  -- matches; the first pool whose match fails, or that has no node manager configuration, ends the
  -- search with that error, or with a panic, when no pool before it matches.
  pub get_matched_pool_name_lem :
      (pools : List (GpuPool Q)) → Describes pools (get_matched_pool_name env node pools)
  unfolding get_matched_pool_name
  get_matched_pool_name_lem [] = tt
  get_matched_pool_name_lem (pool ∷ pools) =
      judged pool pools (match_one env node pool) refl (match_one-Means pool)
        (get_matched_pool_name_lem pools)
