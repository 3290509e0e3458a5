-- ===== src/Candidates.antt =====
-- src/hypershell_reach/candidates.py: the records of candidate capabilities and their lifecycle.
pub mod Record
pub mod Store
pub mod Changes
pub mod Revision
pub mod Frame
pub mod Steps
pub mod History
pub mod Creation
