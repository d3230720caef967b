-- ===== src/Hooks.antt =====
-- src/hooks.rs: the registry of spawn hooks, and src/lib.rs: the console hook registered by name.
pub mod Registry
pub mod Names
pub mod Runs
mod Tests
