-- ===== src/Mutex.antt =====
-- src/mutex.rs, src/mutex/*.rs and the mutex half of src/guard.rs, an atomic access at a time.
pub mod State
pub mod Block
pub mod Async
pub mod Spin
pub mod Unlock
pub mod Machine
pub mod Exclusion
pub mod SyncWakeups
pub mod AsyncWakeups
pub mod Solo
pub mod Refinement
pub mod Safety
pub mod Progress
pub mod Release
mod Tests
