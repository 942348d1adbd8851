-- ===== src/Cluster/Tests.antt =====
-- The theorems of the cluster at concrete inputs.
use tensor_fusion_operator.Prelude.{
  ◌≡◌, ◌≢◌, refl, Bool, true, false, ok, done, fail, not_found, panicked, List, Since, [], ◌∷◌,
}
use tensor_fusion_operator.Prelude.Int.{ℤ, pos}
use tensor_fusion_operator.Api.{GpuPool, Phase}
use tensor_fusion_operator.Samples.{
  int_float, int_quantity, cluster_of_one, pool_in, list_util, owned_pool,
}
use tensor_fusion_operator.Cluster.World.{Env, list_pools}
use tensor_fusion_operator.Cluster.Reconcile.{check_updating}
use tensor_fusion_operator.Cluster.Ready.{Earned, check_updating-Earned}
use tensor_fusion_operator.Cluster.Pools.{reconcile_gpu_pool}
use tensor_fusion_operator.Cluster.Plan.{made, plan, is_nonempty, reconcile_gpu_pool-plan}

abbrev pools : List (GpuPool ℤ)
pools = pool_in "cluster-a" Phase.running (pos 5) ∷ pool_in "cluster-b" Phase.pending (pos 7) ∷ []

-- A server with one owned pool that the spec does not name; the delete is refused.
abbrev env : Env ℤ ℤ
env = record {
  cluster = λ h n. done cluster_of_one;
  cluster_updated = λ h c. done c;
  status_patched = λ h c. done c;
  pools = λ h n. done (owned_pool ∷ []);
  pool_created = λ h p. done tt;
  pool_updated = λ h p. done p;
  pool_deleted = λ h p. fail not_found;
  provider = λ h c. done tt;
  connected = λ h c. done tt;
  in_map_order = λ h d. d;
  random = λ h. pos 0;
  controlled_by = λ c p. done p;
  spec_equal = λ a b. true;
  status_equal = λ a b. false;
  hash = λ c. "hash";
  error_text = λ e. "error";
  set_status_condition = λ cs c. (c ∷ cs, true);
  new_pool = λ n. pool_in n Phase.pending (pos 0);
  util = list_util;
}

reconcile_gpu_pool-plan_example :
    ((reconcile_gpu_pool env cluster_of_one []).1
      ≡ made
          (plan env cluster_of_one (owned_pool ∷ []) (list_pools "cluster" ∷ []))
          (list_pools "cluster" ∷ []))
    × ((reconcile_gpu_pool env cluster_of_one []).0 ≢ panicked)
    × ((b : Bool)
        → (reconcile_gpu_pool env cluster_of_one []).0 ≡ ok b
        → b ≡ is_nonempty (plan env cluster_of_one (owned_pool ∷ []) (list_pools "cluster" ∷ [])))
reconcile_gpu_pool-plan_example =
    reconcile_gpu_pool-plan env cluster_of_one (owned_pool ∷ []) [] refl

check_updating-Earned_example :
    Since
      (Earned env cluster_of_one [])
      []
      (check_updating env cluster_of_one.status cluster_of_one []).1
check_updating-Earned_example = check_updating-Earned env cluster_of_one.status cluster_of_one []
