-- ===== src/Stateful.antt =====
-- pkg/controller/statefulset: pods with ordinals.
pub mod Ordinals
pub mod Names
pub mod Types
pub mod Samples
pub mod Pass
pub mod Tally
pub mod Replicas
pub mod Condemned
pub mod Refresh
pub mod InPlace
pub mod Rolling
pub mod History
pub mod Control
