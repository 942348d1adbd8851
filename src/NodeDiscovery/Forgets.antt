-- ===== src/NodeDiscovery/Forgets.antt =====
-- The discovery job and the scheduler: a device that is discovered again counts as unused.
use tensor_fusion_operator.Prelude.{
  String, List, [], ◌∷◌, Any, some, true, lookup, lookup-insert, eq_refl, insert, ok, ◌≡◌, refl,
  ◌∙◌, inl, inr,
}
use tensor_fusion_operator.Quantity.{Quantity}
use tensor_fusion_operator.Api.{Gpu, Resource}
use tensor_fusion_operator.Scheduler.{
  NaiveScheduler, deduct, fits, on_update, schedule, with_available,
}
use tensor_fusion_operator.NodeDiscovery.World.{Call, Env, History, patch_gpu_status}
use tensor_fusion_operator.NodeDiscovery.Main.{main}
use tensor_fusion_operator.NodeDiscovery.Totals.{AllFull, main-Written}

module _ {Q : Type 0} ⦃q : Quantity Q⦄ where
  schedule-updated :
      (s : NaiveScheduler Q) (old g : Gpu Q) (r c : Resource Q) (order : List String)
      → g.status.available ≡ some c
      → fits c r ≡ true
      → (schedule (g.meta.name ∷ order) r (on_update old g s)).0
        ≡ ok (with_available g (deduct c r))
  unfolding schedule on_update
  schedule-updated s old g r c order free fit =
      let here : lookup g.meta.name (insert g.meta.name g s.gpus) ≡ some g =
        lookup-insert g.meta.name g.meta.name g s.gpus ∙ rw (eq_refl g.meta.name) refl in
      rw (here, free, fit) refl

module _ {Q D : Type 0} ⦃q : Quantity Q⦄ where
  rest-AllFull : (c : Call Q D) (h : History Q D) → AllFull (c ∷ h) → AllFull h
  rest-AllFull (patch_gpu_status g) h x = x.1
  rest-AllFull _ h x = x

  written-Full :
      (g : Gpu Q) (h : History Q D)
      → AllFull h
      → Any (λ c. c ≡ patch_gpu_status g) h
      → g.status.available ≡ g.status.capacity
  written-Full g [] x m = absurd m
  written-Full g (c ∷ h) x (inl e) = let y = rw e at x in y.0
  written-Full g (c ∷ h) x (inr m) = written-Full g h (rest-AllFull c h x) m

  -- When the discovery job has ended well and the scheduler receives one of the GPUs that the job wrote,
  -- it grants the next request that fits into the capacity of that GPU and finds it first, however much
  -- of the GPU the scheduler had granted before.
  pub rediscovered-Grants :
      (env : Env Q D) (h : History Q D)
      → main env [] ≡ (ok tt, h)
      → (s : NaiveScheduler Q) (old g : Gpu Q) (r c : Resource Q) (order : List String)
      → Any (λ call. call ≡ patch_gpu_status g) h
      → g.status.capacity ≡ some c
      → fits c r ≡ true
      → (schedule (g.meta.name ∷ order) r (on_update old g s)).0
        ≡ ok (with_available g (deduct c r))
  rediscovered-Grants env h ended s old g r c order written has fit =
      let w = main-Written env h ended in
      schedule-updated s old g r c order (written-Full g h w.1 written ∙ has) fit
