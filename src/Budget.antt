-- ===== src/Budget.antt =====
-- PodUnavailableBudget: pkg/control/pubcontrol and pkg/controller/podunavailablebudget.
pub mod Types
mod Samples
pub mod Admission
pub mod Recount
