-- ===== src/Rwlock.antt =====
-- src/rwlock.rs, src/rwlock/*.rs and the read-write half of src/guard.rs, an atomic access at a time.
pub mod State
pub mod Read
pub mod Write
pub mod Unlock
pub mod Machine
pub mod Solo
pub mod Drain
pub mod Release
pub mod Exclusion
pub mod Roles
pub mod Wakeups
pub mod Invariant
pub mod Refinement
pub mod Safety
mod ReleaseTests
mod Tests
