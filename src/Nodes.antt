-- ===== src/Nodes.antt =====
-- internal/controller/node_controller.go: a Kubernetes node that a pool's node selector matches gets a
-- GPUNode, and a node that was provisioned is linked to its GPUNode.
pub mod World
pub mod Reconcile
pub mod Matched
pub mod Justified
pub mod Labels
mod Tests
