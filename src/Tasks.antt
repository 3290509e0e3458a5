-- ===== src/Tasks.antt =====
-- src/hypershell_reach/tasks.py: durable tasks, their execution leases and the gate of pending mutations.
pub mod Record
pub mod Store
pub mod Creation
pub mod Leases
pub mod Edits
pub mod Equality
pub mod Closing
pub mod Updating
pub mod Valid
pub mod Effect
pub mod Parts
pub mod LeaseEffects
pub mod EditEffects
pub mod UpdateEffects
pub mod CloseEffects
pub mod StoreEffects
pub mod Calls
pub mod Steps
pub mod History
pub mod Gate
pub mod Atomicity
pub mod Exclusion
pub mod Equivalence
pub mod Reuse
pub mod Marking
pub mod Life
pub mod Lifecycle
