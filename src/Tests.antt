-- ===== src/Tests.antt =====
-- The theorems at concrete inputs, by component of src/: `Samples` holds the inputs.
pub mod Samples
pub mod Sessions
pub mod Service
pub mod Log
pub mod Client
pub mod Agent
pub mod Launch
pub mod Life
pub mod Duty
pub mod Cycle
pub mod MarkFile
pub mod Program
pub mod Configuration
pub mod Join
