-- ===== src/Scheduler.antt =====
-- internal/scheduler/naive.go: the in-memory table of GPUs, from which requests are served. A method
-- of `*NaiveScheduler` is an action on the table; each holds the lock for its whole body, so methods
-- run one after the other.
pub mod Amounts
pub mod Grants
pub mod System
pub mod Ledger
pub mod Refinement
mod Tests
use tensor_fusion_operator.Prelude.{
  String, Dict, lookup, insert, erase, Bool, ◌&&◌, List, [], ◌∷◌, Option, none, some, if◌then◌else◌,
  Action, ok, err, panicked, failed,
}
use tensor_fusion_operator.Prelude.Int.{pos, leb_ℤ}
use tensor_fusion_operator.Quantity.{Quantity}
use tensor_fusion_operator.Api.{Resource, Gpu}

pub record NaiveScheduler (Q : Type 0) : Type 0 where
  pub gpus : Dict (Gpu Q)

unfoldable pub new_naive_scheduler : {Q : Type 0} → NaiveScheduler Q
new_naive_scheduler = record { gpus = [] }

module _ {Q : Type 0} ⦃q : Quantity Q⦄ where
  open q use {add, sub, cmp}

  -- Both comparisons of `Schedule`.
  unfoldable pub fits : Resource Q → Resource Q → Bool
  fits available request =
      leb_ℤ (pos 0) (cmp available.tflops request.tflops)
      && leb_ℤ (pos 0) (cmp available.vram request.vram)

  unfoldable pub deduct : Resource Q → Resource Q → Resource Q
  deduct a r = record { tflops = sub a.tflops r.tflops; vram = sub a.vram r.vram }

  unfoldable pub restore : Resource Q → Resource Q → Resource Q
  restore a r = record { tflops = add a.tflops r.tflops; vram = add a.vram r.vram }

  unfoldable pub with_available : Gpu Q → Resource Q → Gpu Q
  with_available g a = record g { status = record (g.status) { available = some a } }

  -- The body of the loop at one GPU, with the rest of the loop as its last resort. A GPU whose
  -- `Available` is nil is a nil dereference.
  try_available :
      Resource Q
      → String
      → Gpu Q
      → Option (Resource Q)
      → Action (NaiveScheduler Q) (Gpu Q)
      → Action (NaiveScheduler Q) (Gpu Q)
  try_available r k g none rest s = (panicked, s)
  try_available r k g (some a) rest s =
      let g' = with_available g (deduct a r) in
      if fits a r then (ok g', record { gpus = insert k g' s.gpus }) else rest s

  try_gpu :
      Resource Q
      → String
      → Option (Gpu Q)
      → Action (NaiveScheduler Q) (Gpu Q)
      → Action (NaiveScheduler Q) (Gpu Q)
  unfolding try_available
  try_gpu r k none rest s = rest s
  try_gpu r k (some g) rest s = try_available r k g g.status.available rest s

  -- `Schedule`. Go visits a map in an unspecified order: `order` lists the keys as they come.
  unfoldable pub schedule : List String → Resource Q → Action (NaiveScheduler Q) (Gpu Q)
  unfolding try_gpu
  schedule [] r s = (err (failed "no suitable gpu found for request"), s)
  schedule (k ∷ order) r s = try_gpu r k (lookup k s.gpus) (schedule order r) s

  release_available :
      Resource Q → Gpu Q → Gpu Q → Option (Resource Q) → Action (NaiveScheduler Q) (Gpu Q)
  release_available r gpu existing none s = (panicked, s)
  release_available r gpu existing (some a) s =
      let a' = restore a r in
      (
        ok (with_available gpu a'),
        record { gpus = insert gpu.meta.name (with_available existing a') s.gpus },
      )

  release_existing : Resource Q → Gpu Q → Option (Gpu Q) → Action (NaiveScheduler Q) (Gpu Q)
  unfolding release_available
  release_existing r gpu none s = (err (failed "gpu not found"), s)
  release_existing r gpu (some existing) s =
      release_available r gpu existing existing.status.available s

  -- `Release`, which gives back the request and answers the GPU with the new amounts.
  unfoldable pub release : Resource Q → Gpu Q → Action (NaiveScheduler Q) (Gpu Q)
  unfolding release_existing
  release r gpu s = release_existing r gpu (lookup gpu.meta.name s.gpus) s

module _ {Q : Type 0} where
  unfoldable pub on_add : Gpu Q → NaiveScheduler Q → NaiveScheduler Q
  on_add gpu s = record { gpus = insert gpu.meta.name gpu s.gpus }

  unfoldable pub on_update : Gpu Q → Gpu Q → NaiveScheduler Q → NaiveScheduler Q
  on_update old_gpu new_gpu s = record { gpus = insert new_gpu.meta.name new_gpu s.gpus }

  unfoldable pub on_delete : Gpu Q → NaiveScheduler Q → NaiveScheduler Q
  on_delete gpu s = record { gpus = erase gpu.meta.name s.gpus }
