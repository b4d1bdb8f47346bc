-- ===== src/Provider.antt =====
-- pkg/provider: the load balancer of the cloud provider and its service controller.
pub mod Pool
pub mod Interface
pub mod Sharing
pub mod Vips
pub mod Cluster
pub mod Sync
pub mod CloudLoadBalancer
pub mod Controller
pub mod Fixtures
pub mod VipTests
pub mod SyncTests
mod ControllerTests
mod RangeTests
pub mod Registration
