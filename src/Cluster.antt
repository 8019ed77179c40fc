-- ===== src/Cluster.antt =====
-- The status of a RainbondCluster (controllers/cluster-mgr): the nodes that it offers, the checks
-- of the cluster and the conditions that they set.
pub mod Nodes
pub mod Checks
pub mod Generate
pub mod Env
pub mod Status
pub mod Manager
pub mod Loop
pub mod Reads
pub mod Stays
pub mod Done
pub mod Sorted
pub mod PullSecret
pub mod Claim
