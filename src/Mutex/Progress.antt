-- ===== src/Mutex/Progress.antt =====
-- How the calls of a mutex end: what one caller gets when the others stand still.
use wasm_safe_thread.Base.{
  ℕ, suc, ◌≡◌, Bool, true, false, [], ◌∷◌, arith, push, update, if◌then◌else◌,
}
use wasm_safe_thread.Mutex.State.{
  Mem, Call, BlockPc, AsyncPc, idle, block, async, held, call, go, late,
}
use wasm_safe_thread.Mutex.Block.{lock_block}
use wasm_safe_thread.Mutex.Async.{lock_async}
use wasm_safe_thread.Mutex.Spin.{lock_spin}
use wasm_safe_thread.Mutex.Machine.{turn, with_guard}
use wasm_safe_thread.Mutex.Solo.{solo}

abbrev pub has_deadline : Call → Bool
has_deadline Call.try_lock = false
has_deadline (Call.lock_block timed) = timed
has_deadline (Call.lock_async timed) = timed
has_deadline (Call.lock_spin timed) = timed
has_deadline (Call.lock_sync timed) = timed

module _ {A : Type 0} where
  -- The lists' spinlocks are free.
  abbrev pub ListsFree : Mem A → Type 0
  ListsFree m = (m.sync_locked ≡ false) × (m.async_locked ≡ false)

  -- On an unlocked mutex every call, with a deadline or without and on either platform, has the
  -- guard after its first access and five more, while nobody else takes a turn.
  uncontended_lock :
      (m : Mem A) (t : ℕ) (c : Call) (w : Bool)
      → m.data_lock ≡ false
      → ListsFree m
      → solo t (call c w ∷ go ∷ go ∷ go ∷ go ∷ go ∷ []) (m, idle)
        ≡ (record m { data_lock = true }, held)
  unfolding solo turn lock_block lock_async lock_spin
  uncontended_lock m t Call.try_lock w free lists = ground arith
  uncontended_lock m t c w free lists = ground arith

  -- A call whose deadline has already passed still takes an unlocked mutex, and otherwise returns
  -- without the guard, the memory untouched; it needs three turns and no spinlock of a list.
  pub expired_deadline :
      (m : Mem A) (t : ℕ) (c : Call) (w : Bool)
      → has_deadline c ≡ true
      → solo t (call c w ∷ late ∷ late ∷ []) (m, idle)
        ≡ (if m.data_lock then (m, idle) else (record m { data_lock = true }, held))
  unfolding solo turn lock_block lock_async lock_spin with_guard
  expired_deadline m t Call.try_lock w timed = cc
  expired_deadline m t c w timed = ground arith

  -- On a locked mutex `try_lock` answers at once that the lock is not available, and changes nothing.
  pub contended_try_lock :
      (m : Mem A) (t : ℕ) (w : Bool)
      → m.data_lock ≡ true
      → solo t (call Call.try_lock w ∷ []) (m, idle) ≡ (m, idle)
  unfolding solo turn
  contended_try_lock m t w locked = ground arith

  -- On a locked mutex `lock_block` enters its thread at the end of the waiting list, leaves the
  -- list's spinlock, and parks for as long as it has no token.
  pub contended_lock_block :
      (m : Mem A) (t : ℕ) (timed w : Bool)
      → m.data_lock ≡ true
      → ListsFree m
      → m.token t ≡ false
      → solo t (call (Call.lock_block timed) w ∷ go ∷ go ∷ go ∷ go ∷ go ∷ []) (m, idle) ≡ (
        record m { waiting_sync_threads = push m.waiting_sync_threads t },
        block timed BlockPc.park,
      )
  unfolding solo turn lock_block
  contended_lock_block m t timed w locked lists asleep = ground arith

  -- On a locked mutex `lock_async` enters a new continuation and awaits it, for as long as it has
  -- not been sent.
  pub contended_lock_async :
      (m : Mem A) (t : ℕ) (timed w : Bool)
      → m.data_lock ≡ true
      → ListsFree m
      → m.sent m.next ≡ false
      → solo t (call (Call.lock_async timed) w ∷ go ∷ go ∷ go ∷ go ∷ go ∷ []) (m, idle) ≡ (
        record m { waiting_async_threads = push m.waiting_async_threads m.next; next = suc m.next },
        async timed (AsyncPc.await m.next),
      )
  unfolding solo turn lock_async
  contended_lock_async m t timed w locked lists asleep = ground arith

  -- A parked thread that has a token, and a task whose continuation was sent, get an unlocked mutex
  -- within five turns.
  pub woken_lock :
      (m : Mem A) (t : ℕ) (timed : Bool)
      → m.data_lock ≡ false
      → ListsFree m
      → m.token t ≡ true
      → solo t (go ∷ go ∷ go ∷ go ∷ go ∷ []) (m, block timed BlockPc.park)
        ≡ (record m { data_lock = true; token = update m.token t false }, held)
  unfolding solo turn lock_block with_guard
  woken_lock m t timed free lists awake = ground arith
