-- ===== src/Health.antt =====
-- pkg/health: whether the nodes of a network agree.
pub mod Votes
pub mod Checks
pub mod Targets
pub mod Clients
pub mod Dials
pub mod Consensus
pub mod Orchestrator
