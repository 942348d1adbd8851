-- ===== src/GpuNodes.antt =====
-- internal/controller/gpunode_controller.go: a GPU node gets a discovery job and a hypervisor pod, its
-- phase follows the pod, and the vendor's node is terminated before the GPUNode goes away.
pub mod World
pub mod Discovery
pub mod Hypervisor
pub mod Reconcile
pub mod Components
pub mod Justified
pub mod Terminated
mod Tests
