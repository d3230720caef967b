-- ===== src/Interleave.antt =====
-- Threads that share memory: what one thread's step may do to a lock, and what follows for all.
-- A lock is a Boolean, and `holds` says at which program counters a thread owns it.
mod Exclusion
pub mod Lock
pub mod Sections
pub mod SharedLock
mod Wakeups
mod Count
pub use Exclusion.*
pub use Wakeups.*
unfoldable pub use Count.*
