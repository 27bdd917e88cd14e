-- ===== src/Util.antt =====
-- pkg/util: the helpers that the controllers share.
pub mod Tools
pub mod LifecycleState
pub mod Pods
pub mod Requeue
pub mod Batch
pub mod Scatter
pub mod Priority
