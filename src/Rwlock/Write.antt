-- ===== src/Rwlock/Write.antt =====
-- src/rwlock/write.rs.
use wasm_safe_thread.Base.{ℕ, suc, if◌then◌else◌, ◌==◌}
use wasm_safe_thread.Rwlock.State.{
  Mem, Pc, Choice, WaitPc, locked_write, unlocked, sync_write, async_write, wait, spin_write,
  writing, enter, attempt, enlist, leave_locked, leave_waiting, asleep,
}
use wasm_safe_thread.Rwlock.Read.{enter_list, leave_list, push_ticket, park}

module _ {A : Type 0} where
  -- `try_lock_write`: a compare-exchange from `UNLOCKED` to `LOCKED_WRITE`.
  unfoldable pub try_lock_write : Mem A → Pc A → Pc A → Mem A × Pc A
  try_lock_write m won lost =
      if m.data_lock == unlocked then (record m { data_lock = locked_write }, won) else (m, lost)

  -- `lock_spin_write`: one round of the loop.
  unfoldable pub lock_spin_write : Mem A → Mem A × Pc A
  unfolding try_lock_write
  lock_spin_write m = try_lock_write m writing spin_write

  unfoldable pub lock_block_write : Choice A → ℕ → Mem A → WaitPc → Mem A × Pc A
  unfolding try_lock_write
  lock_block_write c t m enter =
      enter_list sync_write m (wait sync_write attempt) (wait sync_write enter)
  lock_block_write c t m attempt =
      try_lock_write m (wait sync_write leave_locked) (wait sync_write enlist)
  lock_block_write c t m enlist = (push_ticket sync_write t m, wait sync_write (leave_waiting t))
  lock_block_write c t m leave_locked = leave_list sync_write m writing
  lock_block_write c t m (leave_waiting k) = leave_list sync_write m (wait sync_write (asleep k))
  lock_block_write c t m (asleep k) = park sync_write c t m

  unfoldable pub lock_async_write : Mem A → WaitPc → Mem A × Pc A
  unfolding try_lock_write
  lock_async_write m enter =
      enter_list async_write m (wait async_write attempt) (wait async_write enter)
  lock_async_write m attempt =
      try_lock_write m (wait async_write leave_locked) (wait async_write enlist)
  lock_async_write m enlist = (
    record (push_ticket async_write m.next m) { next = suc m.next },
    wait async_write (leave_waiting m.next),
  )
  lock_async_write m leave_locked = leave_list async_write m writing
  lock_async_write m (leave_waiting k) = leave_list async_write m (wait async_write (asleep k))
  lock_async_write m (asleep k) =
      (m, if m.sent k then wait async_write enter else wait async_write (asleep k))
