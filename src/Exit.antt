-- ===== src/Exit.antt =====
-- The exit state of a thread on wasm: a block of two words, shared by its `JoinHandle`
-- (src/wasm/thread_api.rs) and by the JavaScript that hosts its worker (src/wasm.rs).
pub mod Machine
pub mod Safety
pub mod Handlers
pub mod Join
mod Tests
