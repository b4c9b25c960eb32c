-- ===== src/Plan/Network.antt =====
-- pkg/plan/network: the data of a network, its nodes, and the topology that the planner composes.
pub mod Nodes
pub mod Extra
pub mod Topology
pub mod Roles
pub mod Calls
pub mod Composed
