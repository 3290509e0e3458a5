-- ===== src/Examples.antt =====
-- The theorems at concrete inputs.
pub mod Runs
pub mod Candidates
pub mod Executor
pub mod Tasks
pub mod Tools
pub mod Server
