-- ===== src/Cluster.antt =====
-- The cluster: api/v1/tensorfusioncluster_funcs.go and
-- internal/controller/tensorfusioncluster_controller.go.
pub mod Status
pub mod World
pub mod Pools
pub mod Reconcile
pub mod Totals
pub mod Plan
pub mod Ready
mod Tests
