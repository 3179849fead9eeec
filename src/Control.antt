-- ===== src/Control.antt =====
-- The control store of src/people_counter/sjd_control.py: `SQLiteControlStore`, a method to a definition.
pub mod Tables
pub mod Texts
pub mod Admission
pub mod Register
pub mod Claim
pub mod Lease
pub mod Process
pub mod Seal
pub mod Commit
pub mod Replay
pub mod Steps
pub mod Sound
pub mod Recovery
pub mod Trace
mod Runs
mod Tests
pub mod Published
pub mod Evolution
