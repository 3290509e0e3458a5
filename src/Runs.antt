-- ===== src/Runs.antt =====
-- src/hypershell_reach/runs.py: the records of executions and their store, over the unified database.
pub mod Record
pub mod Summary
pub mod Store
pub mod Operations
pub mod Printable
pub mod Valid
pub mod Methods
pub mod Invariant
pub mod Steps
pub mod Finality
pub mod ReadBack
pub mod Retention
pub mod Ending
pub mod Interrupting
pub mod Reconcile
pub mod Query
pub mod Pages
