-- ===== src/Utils/Tests.antt =====
-- The theorems of the utilities at concrete inputs.
use tensor_fusion_operator.Prelude.{
  ◌≡◌, refl, true, some, ok, done, Reply, Action, List, [], ◌∷◌, pure, ask,
}
use tensor_fusion_operator.Prelude.Int.{pos, ◌≤ℤ◌}
use tensor_fusion_operator.Api.{ObjectMeta, finalizer}
use tensor_fusion_operator.Samples.{int_float, list_util, named}
use tensor_fusion_operator.Utils.Backoff.{
  base_delay, max_delay, max_retries, backoff_bounds, calculate_exponential_backoff_with_jitter,
}
use tensor_fusion_operator.Utils.Finalizer.{
  Finalized, Object, finalize, handle_finalizer, handle_finalizer-Finalized, is_deleted,
  update_object,
}

abbrev whole : Object ObjectMeta
whole = record { meta = λ m. m; with_meta = λ m m'. m' }

-- An update is recorded and accepted.
abbrev accept : ObjectMeta → Action (List ObjectMeta) (Reply ObjectMeta)
accept m = ask (λ h. done m) m

abbrev dying : ObjectMeta
dying =
    let m = named "object" in
    record m { finalizers = finalizer ∷ []; deletion_timestamp = some (pos 1) }

abbrev released : ObjectMeta
released = let m = named "object" in record m { deletion_timestamp = some (pos 1) }

handled :
    handle_finalizer list_util whole accept (λ m. pure tt) dying []
    ≡ (ok (true, released), released ∷ [])
unfolding handle_finalizer finalize update_object
handled = refl

handle_finalizer-Finalized_example :
    (is_deleted dying ≡ true)
    × Finalized list_util whole accept (λ m. pure tt) dying [] released (released ∷ [])
handle_finalizer-Finalized_example =
    handle_finalizer-Finalized list_util whole accept (λ m. pure tt) dying released []
      (released ∷ []) handled

backoff_bounds_example :
    (base_delay ≤ℤ calculate_exponential_backoff_with_jitter (pos 1) (pos 12))
    × (calculate_exponential_backoff_with_jitter (pos 1) (pos 12) ≤ℤ max_delay)
    × (max_retries ≤ℤ pos 12
        → calculate_exponential_backoff_with_jitter (pos 1) (pos 12)
          ≡ calculate_exponential_backoff_with_jitter (pos 1) max_retries)
backoff_bounds_example = backoff_bounds (pos 1) (pos 12)
