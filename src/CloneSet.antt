-- ===== src/CloneSet.antt =====
-- pkg/controller/cloneset: the workload that keeps a number of pods at a revision.
pub mod Types
mod Samples
pub mod Writes
pub mod Deletion
pub mod Creation
pub mod NewPods
pub mod Scaling
pub mod Refresh
pub mod Updating
pub mod Reconcile
pub mod Diff
pub mod Limit
