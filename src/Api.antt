-- ===== src/Api.antt =====
-- The custom resources of api/v1, field by field, for the fields that the operator's logic reads or
-- writes. A pointer that may be nil is an `Option`; a quantity is of the parameter type `Q`.
mod Metadata
mod GpuTypes
mod NodeTypes
mod NodeClassTypes
mod PoolTypes
mod ClusterTypes
mod PodTypes
pub use Metadata.*
pub use GpuTypes.*
pub use NodeTypes.*
pub use NodeClassTypes.*
pub use PoolTypes.*
pub use ClusterTypes.*
pub use PodTypes.*
