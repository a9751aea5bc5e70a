-- ===== src/Tests.antt =====
-- The theorems applied to concrete objects.
pub mod Fixtures
pub mod PodExamples
pub mod ClusterExamples
pub mod LeaseExamples
pub mod PoolExamples
pub mod StartupExamples
pub mod StoredLeases
pub mod StoreServer
pub mod StoreLaws
pub mod ExclusiveExamples
pub mod MemoryExamples
pub mod ManagerExamples
pub mod AdvanceExamples
