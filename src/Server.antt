-- ===== src/Server.antt =====
-- src/hypershell_reach/server.py: the tools that execute on a target.
pub mod Inputs
pub mod Model
pub mod Routes
pub mod Created
pub mod Parts
pub mod Gate
pub mod Submission
pub mod Refusal
pub mod Settling
pub mod Planned
pub mod Readonly
pub mod Limits
pub mod Cancelling
pub mod Waiting
pub mod Termination
pub mod History
pub mod Events
