-- ===== src/Threads.antt =====
-- The threads of the two backends, src/stdlib.rs and src/wasm/thread_api.rs: their identities, what a
-- spawned thread runs and what its handle gets, and the tasks that keep a worker alive.
pub mod Identity
pub mod Builder
pub mod PanicHook
pub mod Spawn
pub mod Results
pub mod Channel
pub mod Tasks
pub mod Relay
pub mod Shim
pub mod Script
pub mod Console
pub mod Shown
pub mod ConsoleHook
pub mod Reports
pub mod Endings
mod ShownTests
mod ShimTests
mod EndsTests
mod Tests
