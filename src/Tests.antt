-- ===== src/Tests.antt =====
-- Runs on concrete inputs, and the properties at inputs that meet their hypotheses.
mod Nodes
mod Targeting
mod Suite
mod Network
mod Planning
mod Sessions
mod Votes
mod Execution
mod Running
mod Checks
mod Clients
mod Suites
