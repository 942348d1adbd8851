-- ===== src/Cluster/Plan.antt =====
-- The calls that `reconcileGPUPool` makes, as a plan that no answer of the API server changes.
use tensor_fusion_operator.Prelude.{
  String, ◌<>◌, Bool, true, false, ◌||◌, List, [], ◌∷◌, ◌++◌, none, some, lookup, if◌then◌else◌,
  Dict, Outcome, ok, panicked, done, fail, Reply, ◌≡◌, refl, sym, ap, ◌∙◌, inl, inr, Bool-cases,
  Option-cases, ◌>>=◌, >>=-ok, ◌≢◌, arith,
}
use tensor_fusion_operator.Api.{GpuPool, GpuPoolDefinition, TensorFusionCluster}
use tensor_fusion_operator.Cluster.World.{
  Call, list_pools, create_pool, update_pool, delete_pool, History, Env,
}
use tensor_fusion_operator.Cluster.Pools.{
  Tally, noted, key_of, in_spec, new_gpu_pool, create_with, update_changed, ensure_one, ensure_all,
  existing_after, delete_one, delete_all, first_error, existing_from, no_errors, apply_spec,
  reconcile_gpu_pool,
}

abbrev pub is_nonempty : {A : Type 0} → List A → Bool
is_nonempty [] = false
is_nonempty (x ∷ xs) = true

-- The calls made one after the other.
abbrev pub made : {Q : Type 0} → List (Call Q) → History Q → History Q
made [] h = h
made (c ∷ cs) h = made cs (c ∷ h)

made-append :
    {Q : Type 0} (cs ds : List (Call Q)) (h : History Q) → made (cs ++ ds) h ≡ made ds (made cs h)
made-append [] ds h = refl
made-append (c ∷ cs) ds h = made-append cs ds (c ∷ h)

or_false : (b : Bool) → b || false ≡ b
or_false true = refl
or_false false = refl

or_nonempty :
    {A : Type 0} (a : Bool) (xs ys : List A) {b c : Bool}
    → b ≡ is_nonempty xs || a
    → c ≡ is_nonempty ys || b
    → c ≡ is_nonempty (xs ++ ys) || a
or_nonempty a [] ys h k = k ∙ ap (λ x. is_nonempty ys || x) h
or_nonempty a (x ∷ xs) [] h k = k ∙ h
or_nonempty a (x ∷ xs) (y ∷ ys) h k = k

noted-changed :
    {A : Type 0} (text : String) (b : Bool) (r : Reply A) (t : Tally)
    → (noted text b r t).changed ≡ b || t.changed
unfolding noted
noted-changed text b (done a) t = refl
noted-changed text b (fail e) t = refl

module _ {Q F : Type 0} (env : Env Q F) (tfc : TensorFusionCluster Q) where
  -- What a pool of the spec needs: to be created where no such pool is owned, if the owner reference
  -- can be set, and to be updated where the specs differ.
  unfoldable pub creation : Reply (GpuPool Q) → List (Call Q)
  creation (done pool) = create_pool pool ∷ []
  creation (fail e) = []

  unfoldable pub correction : GpuPoolDefinition Q → GpuPool Q → List (Call Q)
  correction def pool =
      if env.spec_equal pool.spec def.spec_template
      then []
      else update_pool (record pool { spec = def.spec_template }) ∷ []

  unfoldable pub needed : Dict (GpuPool Q) → GpuPoolDefinition Q → List (Call Q)
  unfolding creation correction
  needed existing def = elim (lookup (key_of tfc def) existing) [
    | none ↦ creation (env.controlled_by tfc (new_gpu_pool env tfc def))
    | some pool ↦ correction def pool
  ]

  unfoldable pub all_needed :
      Dict (GpuPool Q) → List (GpuPoolDefinition Q) → History Q → List (Call Q)
  all_needed existing [] h = []
  all_needed existing (def ∷ defs) h =
      let calls = needed existing def in
      calls ++ all_needed (existing_after env tfc existing def h) defs (made calls h)

  -- The map of the existing pools after these calls.
  unfoldable pub updated :
      Dict (GpuPool Q) → List (GpuPoolDefinition Q) → History Q → Dict (GpuPool Q)
  updated existing [] h = existing
  updated existing (def ∷ defs) h =
      updated (existing_after env tfc existing def h) defs (made (needed existing def) h)

  unfoldable pub surplus : List (String × GpuPool Q) → List (Call Q)
  surplus [] = []
  surplus ((name, pool) ∷ rest) =
      if in_spec env tfc name then surplus rest else delete_pool pool ∷ surplus rest

  -- A part of the loop ends well, makes the given calls and takes note of whether there were any.
  abbrev Makes : (History Q → Outcome Tally × History Q) → Tally → List (Call Q) → Type 0
  Makes m t cs =
      (h : History Q)
      → (t' : Tally) × (m h ≡ (ok t', made cs h)) × (t'.changed ≡ is_nonempty cs || t.changed)

  Makes-bind :
      (m : History Q → Outcome Tally × History Q)
      (f : Tally → History Q → Outcome Tally × History Q) (t : Tally) (cs ds : List (Call Q))
      → Makes m t cs
      → ((t' : Tally) → Makes (f t') t' ds)
      → Makes (m >>= f) t (cs ++ ds)
  Makes-bind m f t cs ds s k h =
      let (t', e, c) = s h in
      let (t'', e', c') = k t' (made cs h) in
      (
        t'',
        >>=-ok m f h e ∙ e' ∙ ap (λ (x : History Q). (ok t'', x)) (sym (made-append cs ds h)),
        or_nonempty t.changed cs ds c c',
      )

  create_with-Makes :
      (def : GpuPoolDefinition Q) (t : Tally) (r : Reply (GpuPool Q))
      → Makes (create_with env tfc def t r) t (creation r)
  unfolding create_with creation
  create_with-Makes def t (fail e) h =
      (_, refl, noted-changed {A = Unit {0}} "failed to set controller reference" false (fail e) t)
  create_with-Makes def t (done pool) h = (
    _,
    refl,
    noted-changed ("failed to create GPUPool " <> key_of tfc def) true (env.pool_created h pool) t,
  )

  update_changed-Makes :
      (def : GpuPoolDefinition Q) (pool : GpuPool Q) (t : Tally)
      → Makes (update_changed env tfc def pool t) t (correction def pool)
  unfolding update_changed correction
  update_changed-Makes def pool t h =
      elim (Bool-cases (env.spec_equal pool.spec def.spec_template)) [
        | inl equal ↦ (t, rw equal refl, rw equal refl)
        | inr differs ↦
            let text = "failed to update GPUPool " <> key_of tfc def in
            let answer = env.pool_updated h (record pool { spec = def.spec_template }) in
            (
              noted text true answer t,
              rw differs refl,
              rw differs (noted-changed text true answer t),
            )
      ]

  ensure_one-Makes :
      (existing : Dict (GpuPool Q)) (def : GpuPoolDefinition Q) (t : Tally)
      → Makes (ensure_one env tfc existing def t) t (needed existing def)
  unfolding ensure_one needed
  ensure_one-Makes existing def t = elim (Option-cases (lookup (key_of tfc def) existing)) [
    | inl e ↦
        rw (ensure_one, needed, e)
          (create_with-Makes def t (env.controlled_by tfc (new_gpu_pool env tfc def)))
    | inr (pool, e) ↦ rw (ensure_one, needed, e) (update_changed-Makes def pool t)
  ]

  ensure_all-Makes :
      (existing : Dict (GpuPool Q)) (defs : List (GpuPoolDefinition Q)) (t : Tally) (h : History Q)
      → (t' : Tally) × (ensure_all env tfc existing defs t h
          ≡ (ok (t', updated existing defs h), made (all_needed existing defs h) h))
        × (t'.changed ≡ is_nonempty (all_needed existing defs h) || t.changed)
  unfolding ensure_all all_needed updated
  ensure_all-Makes existing [] t h = (t, refl, refl)
  ensure_all-Makes existing (def ∷ defs) t h =
      let calls = needed existing def in
      let after = existing_after env tfc existing def h in
      let (t', e, c) = ensure_one-Makes existing def t h in
      let (t'', e', c') = ensure_all-Makes after defs t' (made calls h) in
      (
        t'',
        >>=-ok (ensure_one env tfc existing def t) (ensure_all env tfc after defs) h e
            ∙ e'
            ∙ ap (λ (x : History Q). (ok (t'', updated after defs (made calls h)), x))
                (sym (made-append calls (all_needed after defs (made calls h)) h)),
        or_nonempty t.changed calls (all_needed after defs (made calls h)) c c',
      )

  deletion : (String × GpuPool Q) → List (Call Q)
  deletion (name, pool) = if in_spec env tfc name then [] else delete_pool pool ∷ []

  delete_one-Makes :
      (entry : String × GpuPool Q) (t : Tally)
      → Makes (delete_one env tfc entry t) t (deletion entry)
  unfolding delete_one deletion
  delete_one-Makes (name, pool) t h = elim (Bool-cases (in_spec env tfc name)) [
    | inl named ↦ (t, rw named refl, rw named refl)
    | inr extra ↦
        let text = "failed to delete GPUPool " <> name in
        let answer = env.pool_deleted h pool in
        (noted text true answer t, rw extra refl, rw extra (noted-changed text true answer t))
  ]

  surplus_step :
      (entry : String × GpuPool Q) (rest : List (String × GpuPool Q))
      → surplus (entry ∷ rest) ≡ deletion entry ++ surplus rest
  unfolding surplus deletion
  surplus_step (name, pool) rest = elim (Bool-cases (in_spec env tfc name)) [
    | inl named ↦ rw named refl
    | inr extra ↦ rw extra refl
  ]

  delete_all-Makes :
      (entries : List (String × GpuPool Q)) (t : Tally)
      → Makes (delete_all env tfc entries t) t (surplus entries)
  unfolding delete_all surplus
  delete_all-Makes [] t = λ h. (t, refl, refl)
  delete_all-Makes (entry ∷ rest) t = rw (surplus_step entry rest) (
      Makes-bind (delete_one env tfc entry t) (delete_all env tfc rest) t (deletion entry)
        (surplus rest) (delete_one-Makes entry t) (delete_all-Makes rest))

  first_error_lem :
      (t : Tally) (h : History Q)
      → ((first_error env t h).1 ≡ h)
        × ((first_error env t h).0 ≢ panicked)
        × ((b : Bool) → (first_error env t h).0 ≡ ok b → b ≡ t.changed)
  unfolding first_error
  first_error_lem t h = ground arith

  -- The plan for the given pools.
  abbrev pub plan : List (GpuPool Q) → History Q → List (Call Q)
  plan pools h =
      let existing = existing_from tfc.meta.name pools [] in
      let needs = all_needed existing tfc.spec.gpu_pools h in
      needs ++ surplus (env.in_map_order (made needs h) (updated existing tfc.spec.gpu_pools h))

  apply_spec_lem :
      (pools : List (GpuPool Q)) (h : History Q)
      → (t : Tally) × (apply_spec env tfc pools h ≡ first_error env t (made (plan pools h) h))
        × (t.changed ≡ is_nonempty (plan pools h))
  unfolding apply_spec
  apply_spec_lem pools h =
      let existing = existing_from tfc.meta.name pools [] in
      let needs = all_needed existing tfc.spec.gpu_pools h in
      let last = updated existing tfc.spec.gpu_pools h in
      let order = env.in_map_order (made needs h) last in
      let delete_part = (λ (p : Tally × Dict (GpuPool Q)) (h' : History Q).
        delete_all env tfc (env.in_map_order h' p.1) p.0 h') in
      let (t, e, c) = ensure_all-Makes existing tfc.spec.gpu_pools no_errors h in
      let (t', e', c') = delete_all-Makes order t (made needs h) in
      (
        t',
        >>=-ok (ensure_all env tfc existing tfc.spec.gpu_pools no_errors)
              (λ x. delete_part x >>= first_error env) h e
            ∙ >>=-ok (delete_part (t, last)) (first_error env) (made needs h) e'
            ∙ ap (first_error env t') (sym (made-append needs (surplus order) h)),
        or_nonempty false needs (surplus order) c c'
            ∙ or_false (is_nonempty (needs ++ surplus order)),
      )

  -- `reconcileGPUPool`, where the pools can be listed, does not panic and makes exactly the planned
  -- calls, whichever of them fail: it creates the pools of the spec that are missing, updates those
  -- whose spec differs from what the listing or an earlier update of the same pool gave, then deletes
  -- the owned pools that the spec does not name. If it returns no error, its answer is whether it made
  -- any of these calls.
  pub reconcile_gpu_pool-plan :
      (pools : List (GpuPool Q)) (h : History Q)
      → env.pools h tfc.meta.name ≡ done pools
      → ((reconcile_gpu_pool env tfc h).1
          ≡ made (plan pools (list_pools tfc.meta.name ∷ h)) (list_pools tfc.meta.name ∷ h))
        × ((reconcile_gpu_pool env tfc h).0 ≢ panicked)
        × ((b : Bool)
            → (reconcile_gpu_pool env tfc h).0 ≡ ok b
            → b ≡ is_nonempty (plan pools (list_pools tfc.meta.name ∷ h)))
  unfolding reconcile_gpu_pool
  reconcile_gpu_pool-plan pools h listed =
      let (t, e, c) = apply_spec_lem pools (list_pools tfc.meta.name ∷ h) in
      let (kept, safe, told) =
        first_error_lem t
          (made (plan pools (list_pools tfc.meta.name ∷ h)) (list_pools tfc.meta.name ∷ h)) in
      rw (listed, e) (kept, safe, λ b ran. told b ran ∙ c)
