-- ===== src/Rwlock/ReleaseTests.antt =====
-- The drop of a write guard, with a reader and a writer that wait.
use wasm_safe_thread.Base.{ℕ, ◌≡◌, refl, true, false, [], ◌∷◌, ◌++◌, arith}
use wasm_safe_thread.Rwlock.State.{
  Call, Lane, sync_read, async_read, async_write, sync_write, lane, reading, idle, go, call,
}
use wasm_safe_thread.Rwlock.Read.{lock_block_read}
use wasm_safe_thread.Rwlock.Write.{lock_async_write, try_lock_write}
use wasm_safe_thread.Rwlock.Read.{try_lock_read}
use wasm_safe_thread.Rwlock.Machine.{System, run, init, step, turn, begin}
use wasm_safe_thread.Rwlock.Solo.{only}
use wasm_safe_thread.Rwlock.Release.{drop_turns, last_drop_hands_over}

-- Thread 0 owns a write guard, thread 1 parks in `lock_block_read`, and thread 2 awaits a
-- continuation in `lock_async_write`.
abbrev two_wait : System ℕ
two_wait = run (init 3 5) (
    only 0 (call Call.try_lock_write true ∷ [])
    ++ only 1 (call Call.lock_block_read true ∷ go ∷ go ∷ go ∷ go ∷ [])
    ++ only 2 (call Call.lock_async_write true ∷ go ∷ go ∷ go ∷ go ∷ []))

lists_free : (l : Lane) → (lane l two_wait.mem).locked ≡ false
unfolding run step turn begin lock_block_read lock_async_write try_lock_read try_lock_write
lists_free sync_read = refl
lists_free async_read = refl
lists_free sync_write = refl
lists_free async_write = refl

last_drop_hands_over_example :
    let s' = run two_wait (only 0 (drop_turns true two_wait.mem)) in
    (s'.pc 0 ≡ idle) × ((run s' (only 1 (go ∷ go ∷ go ∷ go ∷ []))).pc 1 ≡ reading)
unfolding run step turn begin lock_block_read lock_async_write try_lock_read try_lock_write
last_drop_hands_over_example =
    last_drop_hands_over two_wait 1 0 1 true sync_read (omega arith) (omega arith) lists_free refl
      refl (λ e. cc) refl refl refl refl
