-- ===== src/Executor.antt =====
-- src/hypershell_reach/executor.py: the service that owns the asynchronous runs.
pub mod Service
pub mod Cancel
pub mod Steps
pub mod Leases
pub mod LimitedSubmit
pub mod Limit
pub mod Owned
pub mod Orphans
pub mod Ownership
pub mod Await
