-- ===== src/Runtime.antt =====
-- pkg/runtime, pkg/artifacts and pkg/runtime.go: a test suite is run on a network.
pub mod Devnet
pub mod Artifacts
pub mod Suite
