-- ===== src/Rwlock/Unlock.antt =====
-- `Drop for ReadGuard` and `Drop for WriteGuard` of src/guard.rs, with `did_unlock_read` and
-- `did_unlock_write` of src/rwlock/inner.rs.
use wasm_safe_thread.Base.{ℕ, ◌+◌, ◌%◌, true, [], ◌∷◌, if◌then◌else◌, ◌==◌, update}
use wasm_safe_thread.Rwlock.State.{
  Mem, Lane, Pc, UnlockPc, locked_write, unlocked, lane, set_lane, sync_read, async_read,
  sync_write, async_write, idle, unlock, assert_failed, enter, take, leave, wake,
}
use wasm_safe_thread.Rwlock.Read.{enter_list, leave_list}

module _ {A : Type 0} where
  -- `fetch_sub(1)` on a byte, then `assert!(r > 0)`; only the write lists follow.
  unfoldable pub drop_read : Mem A → Mem A × Pc A
  drop_read m = (
    record m { data_lock = (m.data_lock + 255) % 256 },
    if m.data_lock == 0 then assert_failed else unlock (enter sync_write),
  )

  -- `swap(UNLOCKED)`, then `assert!(old == LOCKED_WRITE)`; all four lists follow.
  unfoldable pub drop_write : Mem A → Mem A × Pc A
  drop_write m = (
    record m { data_lock = unlocked },
    if m.data_lock == locked_write then unlock (enter sync_read) else assert_failed,
  )

  -- The order of the lists in `did_unlock_write`; `did_unlock_read` is its second half.
  abbrev pub after : Lane → Pc A
  after sync_read = unlock (enter async_read)
  after async_read = unlock (enter sync_write)
  after sync_write = unlock (enter async_write)
  after async_write = idle

  -- `unpark` for a thread, `send` for a continuation.
  abbrev pub wake_one : Lane → ℕ → Mem A → Mem A
  wake_one sync_read k m = record m { token = update m.token k true }
  wake_one async_read k m = record m { sent = update m.sent k true }
  wake_one sync_write k m = record m { token = update m.token k true }
  wake_one async_write k m = record m { sent = update m.sent k true }

  -- `with_mut(std::mem::take)` of one list after the other, and the loop over what was taken.
  unfoldable pub did_unlock : Mem A → UnlockPc → Mem A × Pc A
  did_unlock m (enter l) = enter_list l m (unlock (take l)) (unlock (enter l))
  did_unlock m (take l) = (
    set_lane l (record { locked = (lane l m).locked; queue = [] }) m,
    unlock (leave l (lane l m).queue),
  )
  did_unlock m (leave l ks) = leave_list l m (unlock (wake l ks))
  did_unlock m (wake l []) = (m, after l)
  did_unlock m (wake l (k ∷ ks)) = (wake_one l k m, unlock (wake l ks))
