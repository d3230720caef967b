-- ===== src/Executor.antt =====
-- The executors of src/test_executor.rs, native and on wasm, and the future of src/stdlib.rs that yields
-- once.
pub mod Spawn
pub mod Worker
mod Tests
