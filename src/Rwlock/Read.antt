-- ===== src/Rwlock/Read.antt =====
-- src/rwlock/read.rs.
use wasm_safe_thread.Base.{
  ℕ, suc, ◌+◌, ◌-◌, ◌/◌, ◌%◌, Bool, true, false, Option, none, some, if◌then◌else◌, ◌==◌, update,
  push,
}
use wasm_safe_thread.Rwlock.State.{
  Mem, Lane, Pc, Choice, WaitPc, locked_write, lane, set_lane, sync_read, async_read, wait,
  spin_read, reading, too_many, enter, attempt, enlist, leave_locked, leave_waiting, asleep,
  spurious,
}

-- `f & LOCKED_WRITE != 0`.
abbrev pub write_bit : ℕ → Bool
write_bit f = f / locked_write % 2 == 1

module _ {A : Type 0} where
  -- `try_lock_read`: the `fetch_update` of `data_lock` as one atomic step, and where each result
  -- leads; with 127 readers its closure panics, inside the spinlock of the list `stuck` if any.
  unfoldable pub try_lock_read : Option Lane → Mem A → Pc A → Pc A → Mem A × Pc A
  try_lock_read stuck m won lost =
      if write_bit m.data_lock
      then (m, lost)
      else if m.data_lock == locked_write - 1
      then (m, too_many stuck)
      else (record m { data_lock = m.data_lock + 1 }, won)

  -- `lock_spin_read`: one round of the loop.
  unfoldable pub lock_spin_read : Mem A → Mem A × Pc A
  unfolding try_lock_read
  lock_spin_read m = try_lock_read none m reading spin_read

  -- The swap that enters a list's spinlock.
  abbrev pub enter_list : Lane → Mem A → Pc A → Pc A → Mem A × Pc A
  enter_list l m inside outside =
      if (lane l m).locked
      then (m, outside)
      else (set_lane l (record { locked = true; queue = (lane l m).queue }) m, inside)

  -- The store that leaves it.
  abbrev pub leave_list : Lane → Mem A → Pc A → Mem A × Pc A
  leave_list l m next = (set_lane l (record { locked = false; queue = (lane l m).queue }) m, next)

  -- `push(thread::current())`, and the push of a new continuation.
  abbrev pub push_ticket : Lane → ℕ → Mem A → Mem A
  push_ticket l k m =
      set_lane l (record { locked = (lane l m).locked; queue = push (lane l m).queue k }) m

  -- `thread::park()`: a token is consumed, or `park` returns for no reason.
  abbrev pub park : Lane → Choice A → ℕ → Mem A → Mem A × Pc A
  park l spurious t m = (m, wait l enter)
  park l c t m =
      if m.token t
      then (record m { token = update m.token t false }, wait l enter)
      else (m, wait l (asleep t))

  unfoldable pub lock_block_read : Choice A → ℕ → Mem A → WaitPc → Mem A × Pc A
  unfolding try_lock_read
  lock_block_read c t m enter =
      enter_list sync_read m (wait sync_read attempt) (wait sync_read enter)
  lock_block_read c t m attempt =
      try_lock_read (some sync_read) m (wait sync_read leave_locked) (wait sync_read enlist)
  lock_block_read c t m enlist = (push_ticket sync_read t m, wait sync_read (leave_waiting t))
  lock_block_read c t m leave_locked = leave_list sync_read m reading
  lock_block_read c t m (leave_waiting k) = leave_list sync_read m (wait sync_read (asleep k))
  lock_block_read c t m (asleep k) = park sync_read c t m

  unfoldable pub lock_async_read : Mem A → WaitPc → Mem A × Pc A
  unfolding try_lock_read
  lock_async_read m enter =
      enter_list async_read m (wait async_read attempt) (wait async_read enter)
  lock_async_read m attempt =
      try_lock_read (some async_read) m (wait async_read leave_locked) (wait async_read enlist)
  lock_async_read m enlist = (
    record (push_ticket async_read m.next m) { next = suc m.next },
    wait async_read (leave_waiting m.next),
  )
  lock_async_read m leave_locked = leave_list async_read m reading
  lock_async_read m (leave_waiting k) = leave_list async_read m (wait async_read (asleep k))
  lock_async_read m (asleep k) =
      (m, if m.sent k then wait async_read enter else wait async_read (asleep k))
