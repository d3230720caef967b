-- ===== src/Parking.antt =====
-- src/wasm/wasm_utils.rs, and `park`, `park_timeout` and `Thread::unpark` of src/wasm/thread_api.rs:
-- the park token of one thread, a word of shared memory.
pub mod Machine
pub mod Spec
pub mod Safety
mod Tests
