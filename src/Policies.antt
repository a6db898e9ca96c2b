-- ===== src/Policies.antt =====
-- connectivity/check/policy.go: the network policies of a test are registered, applied and deleted.
pub mod Registry
pub mod Cluster
pub mod Revisions
pub mod Apply
pub mod Cleanup
pub mod Removal
pub mod Waiting
pub mod Leftover
pub mod Upsert
