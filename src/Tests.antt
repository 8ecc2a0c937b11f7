-- ===== src/Tests.antt =====
-- Tests and worked instances: a concrete TA, a driver in front of it, and calls of the library on
-- concrete inputs.
pub mod Demo
pub mod Calls
pub mod Helpers
pub mod Next
pub mod Commands
pub mod Shelf
pub mod Services
pub mod Row
pub mod Vault
pub mod Kept
pub mod Sequence
pub mod Begin
pub mod Cycle
pub mod Program
pub mod Start
pub mod Cabinet
