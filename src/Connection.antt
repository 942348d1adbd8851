-- ===== src/Connection.antt =====
-- internal/controller/tensorfusionconnection_controller.go: the reconciler that schedules a GPU for
-- a connection, starts its worker pod and gives the GPU back at deletion.
mod World
mod Handlers
pub use World.*
unfoldable pub use Handlers.*
pub mod Table
pub mod Leaks
pub mod Deletion
mod Tests
