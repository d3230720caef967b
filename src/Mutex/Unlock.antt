-- ===== src/Mutex/Unlock.antt =====
-- `Drop for Guard` of src/guard.rs, and `did_unlock` of src/mutex.rs.
use wasm_safe_thread.Base.{true, false, [], ◌∷◌, if◌then◌else◌, update}
use wasm_safe_thread.Mutex.State.{
  Mem, Pc, UnlockPc, idle, unlock, enter_sync, take_sync, leave_sync, unpark, enter_async,
  take_async, leave_async, send,
}

module _ {A : Type 0} where
  -- The store that releases the lock; `did_unlock` follows.
  unfoldable pub drop_guard : Mem A → Mem A × Pc A
  drop_guard m = (record m { data_lock = false }, unlock enter_sync)

  unfoldable pub did_unlock : Mem A → UnlockPc → Mem A × Pc A
  did_unlock m enter_sync =
      if m.sync_locked
      then (m, unlock enter_sync)
      else (record m { sync_locked = true }, unlock take_sync)
  did_unlock m take_sync =
      (record m { waiting_sync_threads = [] }, unlock (leave_sync m.waiting_sync_threads))
  did_unlock m (leave_sync threads) = (record m { sync_locked = false }, unlock (unpark threads))
  did_unlock m (unpark []) = (m, unlock enter_async)
  did_unlock m (unpark (t ∷ ts)) = (record m { token = update m.token t true }, unlock (unpark ts))
  did_unlock m enter_async =
      if m.async_locked
      then (m, unlock enter_async)
      else (record m { async_locked = true }, unlock take_async)
  did_unlock m take_async =
      (record m { waiting_async_threads = [] }, unlock (leave_async m.waiting_async_threads))
  did_unlock m (leave_async senders) = (record m { async_locked = false }, unlock (send senders))
  did_unlock m (send []) = (m, idle)
  did_unlock m (send (k ∷ ks)) = (record m { sent = update m.sent k true }, unlock (send ks))
