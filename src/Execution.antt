-- ===== src/Execution.antt =====
-- src/hypershell_reach/execution.py: one execution over SSH.
pub mod Lease
pub mod Slots
pub mod Ssh
pub mod Stream
pub mod Locks
