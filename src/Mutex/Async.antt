-- ===== src/Mutex/Async.antt =====
-- src/mutex/async_impl.rs: `lock_async` and `lock_async_timeout`. A continuation is a number; the
-- thread that `lock_async_timeout` spawns for the timeout is the choice `late`.
use wasm_safe_thread.Base.{ℕ, suc, Bool, true, false, if◌then◌else◌, push}
use wasm_safe_thread.Mutex.State.{
  Mem, Pc, Choice, AsyncPc, idle, held, async, check, last, enter, attempt, enlist, leave_locked,
  leave_waiting, await, late,
}
use wasm_safe_thread.Mutex.Block.{try_lock}

module _ {A : Type 0} where
  abbrev pub again : Bool → Pc A
  again timed = if timed then async true check else async false enter

  -- `Race::poll` after the notification was found pending; a task without a timeout just waits.
  abbrev pub timeout : Bool → Choice A → ℕ → Pc A
  timeout timed late k = if timed then idle else async false (await k)
  timeout timed _ k = async timed (await k)

  unfoldable pub lock_async : Bool → Choice A → Mem A → AsyncPc → Mem A × Pc A
  lock_async timed late m check = (m, async timed last)
  lock_async timed c m check = (m, async timed enter)
  lock_async timed c m last = try_lock m held idle
  lock_async timed c m enter =
      if m.async_locked
      then (m, async timed enter)
      else (record m { async_locked = true }, async timed attempt)
  lock_async timed c m attempt = try_lock m (async timed leave_locked) (async timed enlist)
  lock_async timed c m enlist = (
    record m { waiting_async_threads = push m.waiting_async_threads m.next; next = suc m.next },
    async timed (leave_waiting m.next),
  )
  lock_async timed c m leave_locked = (record m { async_locked = false }, held)
  lock_async timed c m (leave_waiting k) =
      (record m { async_locked = false }, async timed (await k))
  lock_async timed c m (await k) = (m, if m.sent k then again timed else timeout timed c k)
