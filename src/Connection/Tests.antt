-- ===== src/Connection/Tests.antt =====
-- The theorems of the connection reconciler at concrete inputs.
use tensor_fusion_operator.Prelude.{
  ◌⊎◌, ◌≡◌, refl, some, done, fail, not_found, [], ◌∷◌, lookup, if◌then◌else◌,
}
use tensor_fusion_operator.Prelude.Int.{ℤ, pos, ◌+ℤ◌}
use tensor_fusion_operator.Api.{Gpu, Resource, TensorFusionConnection, TensorFusionConnectionPhase}
use tensor_fusion_operator.Samples.{
  int_quantity, gpu_with, gpu_served, table_of_one, connection_in, list_util, resource,
}
use tensor_fusion_operator.Scheduler.{NaiveScheduler, schedule}
use tensor_fusion_operator.Scheduler.Amounts.{Dimension, amount}
use tensor_fusion_operator.Connection.World.{World, Env}
use tensor_fusion_operator.Connection.Handlers.{handle_deletion, place, wants_gpu}
use tensor_fusion_operator.Connection.Table.{place_table}
use tensor_fusion_operator.Connection.Deletion.{
  Credited, NothingHeld, handle_deletion_lem, released_twice,
}

-- A server that knows GPU `gpu-0`, accepts every update and has no pool and no pod.
abbrev env : Env ℤ
env = record {
  connection = λ h n. fail not_found;
  connection_updated = λ h c. done c;
  connection_status_updated = λ h c. done tt;
  gpu = λ h n. done (gpu_with "gpu-0" (pos 10) (pos 20));
  gpu_status_updated = λ h g. done tt;
  pool = λ h n. fail not_found;
  pod = λ h n. fail not_found;
  pod_created = λ h p. done p;
  visit_order = λ w. "gpu-0" ∷ [];
  random = λ w n. 0;
  controlled_by = λ c p. done p;
  retry_on_conflict = λ m. m;
  worker = record { unmarshal = λ t. fail not_found; itoa = λ n. "" };
  util = list_util;
}

abbrev world : World ℤ
world = record { calls = []; scheduler = table_of_one }

abbrev fresh : TensorFusionConnection ℤ
fresh = connection_in TensorFusionConnectionPhase.pending ""

abbrev served : TensorFusionConnection ℤ
served = connection_in TensorFusionConnectionPhase.running "gpu-0"

abbrev rest : NaiveScheduler ℤ
rest = record { gpus = ("gpu-0", gpu_served) ∷ [] }

place_table_example : (place env fresh world).1.scheduler ≡ (
    if wants_gpu fresh.status.phase
    then (schedule ("gpu-0" ∷ []) fresh.spec.resources.requests table_of_one).1
    else table_of_one)
place_table_example = place_table env (λ m k. k) fresh world

handle_deletion_lem_example :
    (NothingHeld env served world
      × ((handle_deletion env served world).1.scheduler ≡ world.scheduler))
    ⊎ Credited env served world (handle_deletion env served world).1
handle_deletion_lem_example = handle_deletion_lem env (λ m k. k) served world

abbrev held_gpu : Gpu ℤ
held_gpu = gpu_with "gpu-0" (pos 10) (pos 20)

abbrev held_gpu_available : Resource ℤ
held_gpu_available = resource (pos 10) (pos 20)

released_twice_example :
    (e : Gpu ℤ) × (b : Resource ℤ) × (lookup "gpu-0"
        (handle_deletion env served (handle_deletion env served world).1).1.scheduler.gpus
      ≡ some e)
    × (e.status.available ≡ some b)
    × ((d : Dimension)
        → amount d b
          ≡ amount d held_gpu_available
            +ℤ amount d served.spec.resources.requests
            +ℤ amount d served.spec.resources.requests)
released_twice_example =
    released_twice env (λ m k. k) served world held_gpu held_gpu held_gpu held_gpu_available refl
      refl refl refl refl refl
