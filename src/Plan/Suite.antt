-- ===== src/Plan/Suite.antt =====
-- pkg/plan/suite: the test suite that the planner composes for a network.
pub mod Kinds
pub mod Faults
pub mod Tags
pub mod Targeting
pub mod Steps
pub mod Scenarios
pub mod Builder
