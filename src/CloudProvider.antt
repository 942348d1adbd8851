-- ===== src/CloudProvider.antt =====
-- internal/cloudprovider: the types of the provider interface and the choice of the nodes to create.
pub mod Types
pub mod Instances
pub mod Placement
pub mod LeastCost
pub mod Eligible
pub mod Cheapest
pub mod Params
mod Tests
