-- ===== src/Platform.antt =====
-- What the code finds out about the place where it runs: src/wasm_support.rs and the tests of
-- src/wasm/wasm_utils.rs.
pub mod Globals
pub mod Blocking
pub mod Sleeping
mod Tests
