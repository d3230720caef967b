-- ===== src/Mpsc.antt =====
-- src/mpsc.rs: one channel, with any number of sender handles and its receiver.
pub mod State
pub mod Send
pub mod Recv
pub mod Machine
pub mod Roles
pub mod Invariant
pub mod Safety
pub mod Stranded
pub mod Wakeups
pub mod Sent
pub mod Taken
pub mod Notifying
pub mod Polled
pub mod Parked
pub mod Rung
pub mod Roused
pub mod Runs
pub mod Delivery
pub mod Unsent
pub mod Sources
mod Tests
