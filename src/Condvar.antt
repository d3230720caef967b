-- ===== src/Condvar.antt =====
-- src/condvar.rs and src/condvar/*.rs: one condition variable, and the mutex that its callers use.
pub mod State
pub mod Notify
pub mod Wait
pub mod Owners
pub mod Machine
pub mod Roles
pub mod Covered
pub mod Safety
pub mod Laws
pub mod Deadline
pub mod While
pub mod Monitor
pub mod MonitorSafety
pub mod Calls
pub mod Refinement
pub mod Sections
mod MonitorTests
mod Tests
