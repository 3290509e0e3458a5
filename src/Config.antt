-- ===== src/Config.antt =====
-- src/hypershell_reach/config.py: the limits and targets that executions are held to.
pub mod Model
pub mod Limits
