-- ===== src/Project.antt =====
-- pkg/project: the directories of a project and the test suites in it.
pub mod Suites
pub mod Directories
pub mod Initialized
pub mod Locations
pub mod Planned
