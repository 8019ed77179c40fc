-- ===== src/Tests.antt =====
-- Runs of the definitions at concrete inputs.
pub mod Conditions
pub mod Package
pub mod Cluster
pub mod Component
pub mod Store
pub mod Merge
pub mod Disk
pub mod Volume
pub mod ClusterLoop
pub mod Handlers
