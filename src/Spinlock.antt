-- ===== src/Spinlock.antt =====
-- src/spinlock.rs: `Spinlock`, whose only access is a closure run by `with_mut`.
pub mod Closure
pub mod Threads
pub mod Atomic
mod Tests
