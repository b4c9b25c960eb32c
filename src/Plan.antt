-- ===== src/Plan.antt =====
-- pkg/plan: the planner, which composes a network and a test suite from a configuration.
pub mod Network
pub mod Suite
pub mod PlannerConfig
pub mod Serialization
pub mod Files
pub mod Entry
