-- ===== src/Connection/Deletion.antt =====
-- The deletion hook and the scheduler's table.
use tensor_fusion_operator.Prelude.{
  ◌⊎◌, inl, inr, none, fail, true, Error, is_not_found, Bool-cases, Reply-cases, Option-cases, ◌≡◌,
  refl, ◌∙◌, ap, false, some, done, lookup, is_empty, ◌∷◌, arith,
}
use tensor_fusion_operator.Prelude.Int.{◌+ℤ◌}
use tensor_fusion_operator.Quantity.{Quantity}
use tensor_fusion_operator.Api.{Gpu, Resource, TensorFusionConnection}
use tensor_fusion_operator.Scheduler.{release, restore, with_available}
use tensor_fusion_operator.Scheduler.Amounts.{Dimension, amount, amount-restore}
use tensor_fusion_operator.Scheduler.Grants.{lookup-release, release_absent, release_unknown}
use tensor_fusion_operator.Connection.World.{World, Env, get_gpu}
use tensor_fusion_operator.Connection.Handlers.{handle_deletion, release_gpu}
use tensor_fusion_operator.Connection.Table.{RetryOnlyRuns, must_update-KeepsTable}

module _ {Q : Type 0} ⦃q : Quantity Q⦄ (env : Env Q) where
  release_gpu_table :
      RetryOnlyRuns env
      → (c : TensorFusionConnection Q) (gpu : Gpu Q) (w : World Q)
      → (release_gpu env c (done gpu) w).1.scheduler
        ≡ (release c.spec.resources.requests gpu w.scheduler).1
  unfolding release_gpu
  release_gpu_table only c gpu w = grind (arith, must_update-KeepsTable env only c)

  released :
      RetryOnlyRuns env
      → (c : TensorFusionConnection Q) (gpu : Gpu Q) (w : World Q) → is_empty c.status.gpu ≡ false
      → env.gpu w.calls c.status.gpu ≡ done gpu
      → (handle_deletion env c w).1.scheduler
        ≡ (release c.spec.resources.requests gpu w.scheduler).1
  unfolding handle_deletion
  released only c gpu w holds answer =
      rw (holds, answer)
        (release_gpu_table only c gpu (record w { calls = get_gpu c.status.gpu ∷ w.calls }))

  -- Nothing can be given back: the connection holds no GPU, its GPU cannot be read, or the table does
  -- not have it, or not what it has available.
  abbrev pub NothingHeld : TensorFusionConnection Q → World Q → Type 0
  NothingHeld c w =
      (is_empty c.status.gpu ≡ true)
      ⊎ (((e : Error) × (env.gpu w.calls c.status.gpu ≡ fail e))
          ⊎ ((gpu : Gpu Q) × (env.gpu w.calls c.status.gpu ≡ done gpu)
              × ((lookup gpu.meta.name w.scheduler.gpus ≡ none)
                  ⊎ ((before : Gpu Q) × (lookup gpu.meta.name w.scheduler.gpus ≡ some before)
                      × (before.status.available ≡ none)))))

  -- The table's entry of the connection's GPU has the request more than before.
  pub record Credited (c : TensorFusionConnection Q) (w w' : World Q) : Type 0 where
    pub gpu : Gpu Q
    pub held : env.gpu w.calls c.status.gpu ≡ done gpu
    pub before : Gpu Q
    pub found : lookup gpu.meta.name w.scheduler.gpus ≡ some before
    pub amounts : Resource Q
    pub known : before.status.available ≡ some amounts
    pub after : Gpu Q
    pub stored : lookup gpu.meta.name w'.scheduler.gpus ≡ some after
    pub amounts' : Resource Q
    pub left : after.status.available ≡ some amounts'
    pub credit :
        (d : Dimension) → amount d amounts' ≡ amount d amounts +ℤ amount d c.spec.resources.requests

  Fate : TensorFusionConnection Q → World Q → Type 0
  Fate c w =
      (NothingHeld c w × ((handle_deletion env c w).1.scheduler ≡ w.scheduler))
      ⊎ Credited c w (handle_deletion env c w).1

  held-Fate :
      RetryOnlyRuns env
      → (c : TensorFusionConnection Q) (gpu : Gpu Q) (w : World Q) → is_empty c.status.gpu ≡ false
      → env.gpu w.calls c.status.gpu ≡ done gpu
      → Fate c w
  unfolding Fate with_available
  held-Fate only c gpu w holds answer =
      let r = c.spec.resources.requests in
      let once = released only c gpu w holds answer in
      elim (Option-cases (lookup gpu.meta.name w.scheduler.gpus)) [
        | inl e ↦ inl (inr (inr (gpu, answer, inl e)), once ∙ release_absent r gpu w.scheduler e)
        | inr (before, e) ↦ elim (Option-cases before.status.available) [
          | inl k ↦ inl (
            inr (inr (gpu, answer, inr (before, e, k))),
            once ∙ release_unknown r gpu before w.scheduler e k,
          )
          | inr (a, k) ↦ inr (record {
            gpu = gpu;
            held = answer;
            before = before;
            found = e;
            amounts = a;
            known = k;
            after = with_available before (restore a r);
            stored = rw once (lookup-release r gpu before a w.scheduler e k);
            amounts' = restore a r;
            left = refl;
            credit = λ d. amount-restore d a r;
          })
        ]
      ]

  unread :
      (c : TensorFusionConnection Q) (e : Error) (w : World Q)
      → is_empty c.status.gpu ≡ false
      → env.gpu w.calls c.status.gpu ≡ fail e
      → (handle_deletion env c w).1.scheduler ≡ w.scheduler
  unfolding handle_deletion release_gpu
  unread c e w holds answer = elim (Bool-cases (is_not_found e)) [
    | inl gone ↦ rw (holds, answer, gone) refl
    | inr other ↦ rw (holds, answer, other) refl
  ]

  holds_none :
      (c : TensorFusionConnection Q) (w : World Q)
      → is_empty c.status.gpu ≡ true
      → (handle_deletion env c w).1.scheduler ≡ w.scheduler
  unfolding handle_deletion
  holds_none c w e = rw e refl

  -- The deletion hook either leaves the scheduler's table as it was, which happens only if the connection
  -- holds no GPU, its GPU cannot be read, or the table does not know it; or the entry of that GPU has
  -- exactly the connection's request more available than before, in TFLOPS and in VRAM, whether the
  -- status updates that follow succeed or not.
  pub handle_deletion_lem :
      RetryOnlyRuns env
      → (c : TensorFusionConnection Q) (w : World Q)
      → (NothingHeld c w × ((handle_deletion env c w).1.scheduler ≡ w.scheduler))
        ⊎ Credited c w (handle_deletion env c w).1
  unfolding Fate
  handle_deletion_lem only c w = elim (Bool-cases (is_empty c.status.gpu)) [
    | inl e ↦ inl (inl e, holds_none c w e)
    | inr holds ↦ elim (Reply-cases (env.gpu w.calls c.status.gpu)) [
      | inl (gpu, answer) ↦ held-Fate only c gpu w holds answer
      | inr (e, answer) ↦ inl (inr (inl (e, answer)), unread c e w holds answer)
    ]
  ]

  module _ (only : RetryOnlyRuns env) (c : TensorFusionConnection Q) (w : World Q)
      (gpu gpu' before : Gpu Q) (a : Resource Q) where
    -- Where the hook runs twice for one connection, which is what happens when the first run's status
    -- update or the removal of the finalizer fails, the table is credited twice: an entry that had
    -- `a` available has `a` and two times the request.
    pub released_twice :
        is_empty c.status.gpu ≡ false
        → env.gpu w.calls c.status.gpu ≡ done gpu
        → env.gpu (handle_deletion env c w).1.calls c.status.gpu ≡ done gpu'
        → gpu'.meta.name ≡ gpu.meta.name
        → lookup gpu.meta.name w.scheduler.gpus ≡ some before
        → before.status.available ≡ some a
        → (e : Gpu Q) × (b : Resource Q) × (lookup gpu.meta.name
              (handle_deletion env c (handle_deletion env c w).1).1.scheduler.gpus
            ≡ some e)
          × (e.status.available ≡ some b)
          × ((d : Dimension)
              → amount d b
                ≡ amount d a
                  +ℤ amount d c.spec.resources.requests
                  +ℤ amount d c.spec.resources.requests)
    unfolding with_available
    released_twice holds answer answer' same found known =
        let r = c.spec.resources.requests in
        let mid = (handle_deletion env c w).1 in
        let once = released only c gpu w holds answer in
        let twice = released only c gpu' mid holds answer' in
        let found' : lookup gpu'.meta.name mid.scheduler.gpus
            ≡ some (with_available before (restore a r)) =
          rw (same, once) (lookup-release r gpu before a w.scheduler found known) in
        let found'' =
          lookup-release r gpu' (with_available before (restore a r)) (restore a r) mid.scheduler
            found' refl in
        (
          with_available (with_available before (restore a r)) (restore (restore a r) r),
          restore (restore a r) r,
          rw (twice, ← same) found'',
          refl,
          λ d. amount-restore d (restore a r) r ∙ ap (λ x. x +ℤ amount d r) (amount-restore d a r),
        )
