-- ===== src/Ipam.antt =====
-- pkg/ipam: address pools from the configuration, the search for a free address, and the manager
-- that keeps a pool for each namespace.
pub mod FreeAddress
pub mod AddressBuilder
pub mod Families
pub mod Manager
pub mod Tests
pub mod Histories
mod PoolTests
