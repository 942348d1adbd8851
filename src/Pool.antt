-- ===== src/Pool.antt =====
-- The GPU pool: internal/controller/gpupool_controller.go, gpupool_node_provision.go and
-- gpupool_compaction_controller.go.
pub mod World
pub mod Gap
pub mod Capacity
pub mod Compaction
pub mod Provision
pub mod Fates
pub mod Emptied
pub mod Tests
