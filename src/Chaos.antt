-- ===== src/Chaos.antt =====
-- pkg/chaos-mesh: the faults that run in a cluster.
pub mod Session
pub mod Status
pub mod Client
