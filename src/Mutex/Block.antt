-- ===== src/Mutex/Block.antt =====
-- src/mutex/block.rs: `lock_block` and `lock_block_timeout`.
use wasm_safe_thread.Base.{ℕ, Bool, true, false, if◌then◌else◌, update, push}
use wasm_safe_thread.Mutex.State.{
  Mem, Pc, Choice, BlockPc, idle, held, block, check, last, enter, attempt, enlist, leave_locked,
  leave_waiting, park, late, spurious,
}

module _ {A : Type 0} where
  -- `try_lock`: a compare-exchange of `data_lock` from false to true, and where each result leads.
  abbrev pub try_lock : Mem A → Pc A → Pc A → Mem A × Pc A
  try_lock m won lost = if m.data_lock then (m, lost) else (record m { data_lock = true }, won)

  -- The head of the loop.
  abbrev pub again : Bool → Pc A
  again timed = if timed then block true check else block false enter

  -- `thread::park` and `park_timeout`: a token is consumed, the timeout fires, or no reason is given.
  abbrev pub parked : Bool → Choice A → Mem A → Mem A × Pc A
  parked timed late m = (m, if timed then again true else block false park)
  parked timed spurious m = (m, again timed)
  parked timed _ m = (m, block timed park)

  unfoldable pub lock_block : Bool → Choice A → ℕ → Mem A → BlockPc → Mem A × Pc A
  lock_block timed late t m check = (m, block timed last)
  lock_block timed c t m check = (m, block timed enter)
  lock_block timed c t m last = try_lock m held idle
  lock_block timed c t m enter =
      if m.sync_locked
      then (m, block timed enter)
      else (record m { sync_locked = true }, block timed attempt)
  lock_block timed c t m attempt = try_lock m (block timed leave_locked) (block timed enlist)
  lock_block timed c t m enlist =
      (record m { waiting_sync_threads = push m.waiting_sync_threads t }, block timed leave_waiting)
  lock_block timed c t m leave_locked = (record m { sync_locked = false }, held)
  lock_block timed c t m leave_waiting = (record m { sync_locked = false }, block timed park)
  lock_block timed c t m park =
      if m.token t
      then (record m { token = update m.token t false }, again timed)
      else parked timed c m
