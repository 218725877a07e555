-- ===== src/ClusterAutoscaler.antt =====
-- cmd/cluster-autoscaler/clusterAutoscaler.go: the check that the cluster grows by a node.
pub mod Objects
pub mod New
pub mod Check
pub mod Effects
pub mod Owns
pub mod Debug
pub mod Success
pub mod Capacity
pub mod NoNodes
pub mod CleanUp
pub mod Plan
pub mod Cleared
pub mod Housed
pub mod Evidence
pub mod Cancelled
