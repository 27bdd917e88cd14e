-- ===== src/United.antt =====
-- pkg/controller/uniteddeployment: the replicas of a UnitedDeployment among its subsets.
pub mod Types
pub mod Sums
pub mod Elastic
pub mod Specific
