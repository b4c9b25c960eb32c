-- ===== src/Executor.antt =====
-- pkg/test_executor: a test's plan is run against the cluster.
pub mod Recover
pub mod Recovery
pub mod Waits
pub mod Run
pub mod Injection
pub mod Kept
pub mod Begun
pub mod Completed
pub mod Gate
pub mod Endless
pub mod Collect
pub mod Pods
