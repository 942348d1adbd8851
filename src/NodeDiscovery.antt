-- ===== src/NodeDiscovery.antt =====
-- cmd/nodediscovery/main.go: the job that runs on a GPU node, asks NVML for its devices and writes their
-- GPU resources and the totals of the GPUNode; and internal/config/gpu_info.go.
pub mod World
pub mod Main
pub mod Totals
pub mod Forgets
mod Tests
