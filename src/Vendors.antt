-- ===== src/Vendors.antt =====
-- internal/cloudprovider/alibaba/ecs.go, internal/cloudprovider/aws/ec2.go and `GetAccessKeyOrSecretFromPath` of internal/cloudprovider/common/utils.go:
-- how the vendors create, terminate and describe the instances of nodes.
pub mod World
pub mod Request
pub mod Alibaba
pub mod Aws
pub mod Cached
pub mod Requested
pub mod Created
pub mod Unidentified
mod Tests
