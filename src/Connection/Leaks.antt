-- ===== src/Connection/Leaks.antt =====
-- What becomes of a granted request when a later step of `Reconcile` fails.
use tensor_fusion_operator.Prelude.{String, Outcome, lookup, ◌≡◌, some, err, Error, ◌∷◌}
use tensor_fusion_operator.Prelude.Int.{◌-ℤ◌}
use tensor_fusion_operator.Quantity.{Quantity}
use tensor_fusion_operator.Api.{Requeue, Resource, Gpu, TensorFusionConnection}
use tensor_fusion_operator.Scheduler.Amounts.{Dimension, amount}
use tensor_fusion_operator.Connection.World.{World, Env, get_pool}

module _ {Q : Type 0} ⦃q : Quantity Q⦄ (env : Env Q) where
  -- The request was granted on `g` and is lost: the reconciliation ends with an error, its one call is
  -- the one that read the pool, so that no status which names the GPU is stored, and the table's entry
  -- of some GPU has what it had before less the request.
  pub record Stranded (c : TensorFusionConnection Q) (w : World Q) (g : Gpu Q)
      (x : Outcome Requeue × World Q) : Type 0 where
    pub error : Error
    pub result : x.0 ≡ err error
    pub calls : x.1.calls ≡ get_pool c.spec.pool_name ∷ w.calls
    pub key : String
    pub before : Gpu Q
    pub found : lookup key w.scheduler.gpus ≡ some before
    pub amounts : Resource Q
    pub known : before.status.available ≡ some amounts
    pub stored : lookup key x.1.scheduler.gpus ≡ some g
    pub amounts' : Resource Q
    pub left : g.status.available ≡ some amounts'
    pub debit :
        (d : Dimension) → amount d amounts' ≡ amount d amounts -ℤ amount d c.spec.resources.requests
