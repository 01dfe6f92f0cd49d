-- ===== src/JobRegistry.antt =====
-- modules/file_mgr/job_registry.rs: the in-process job registry.
pub mod Types
pub mod State
pub mod Admission
pub mod Events
pub mod Handle
pub mod Entries
pub mod Shrinks
pub mod Narrows
pub mod Exclusion
pub mod Caps
pub mod Runs
pub mod Ring
pub mod Everywhere
pub mod Retention
pub mod Ended
pub mod LogLines
pub mod Throttle
mod Tests
