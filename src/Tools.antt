-- ===== src/Tools.antt =====
-- src/hypershell_reach/managed_tools.py: the contract of managed scripts and their arguments.
pub mod Model
pub mod Arguments
pub mod Quoting
