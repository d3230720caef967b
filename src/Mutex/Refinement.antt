-- ===== src/Mutex/Refinement.antt =====
-- The mutex is a lock: every interleaving of its callers, with their lists, parks and continuations, is
-- a sequence of critical sections.
use wasm_safe_thread.Base.{ℕ, ◌≡◌, refl, true, false, List, Option, none, some, arith}
use wasm_safe_thread.Interleave.Lock.{data_after}
use wasm_safe_thread.Interleave.Sections.{Machine, IsLocking, ops, Locked, run-Locked}
use wasm_safe_thread.Mutex.State.{Mem, Pc, Choice, loaded, idle}
use wasm_safe_thread.Mutex.Block.{lock_block}
use wasm_safe_thread.Mutex.Async.{lock_async}
use wasm_safe_thread.Mutex.Spin.{lock_spin}
use wasm_safe_thread.Mutex.Unlock.{did_unlock, drop_guard}
use wasm_safe_thread.Mutex.Machine.{System, turn, step, run, init}
use wasm_safe_thread.Mutex.Exclusion.{holds, IsFresh, Sound, turn-Shift, step-Sound, init-Sound}

module _ {A : Type 0} where
  -- The closure that a thread with the guard is about to run on the data.
  abbrev pub written : Pc A → Option (A → A)
  written (loaded f a) = some f
  written _ = none

  turn_released :
      (c : Choice A) (t : ℕ) (m : Mem A) (p : Pc A)
      → holds p ≡ true
      → holds (turn c t m p).1 ≡ false
      → (turn c t m p).0.data_lock ≡ false
  unfolding turn lock_block lock_async drop_guard
  turn_released c t m p h h' = ground arith

  turn_data :
      (c : Choice A) (t : ℕ) (m : Mem A) (p : Pc A)
      → IsFresh m p
      → (turn c t m p).0.inner ≡ data_after (holds p) (holds (turn c t m p).1) (written p) m.inner
  unfolding turn lock_block lock_async lock_spin did_unlock drop_guard
  turn_data c t m idle fresh = ground arith
  turn_data c t m (loaded f a) fresh = ground arith
  turn_data c t m p fresh = ground arith

  -- The machine of a mutex, with its flag and its data.
  abbrev pub sections : Machine (System A) (Choice A) (Pc A) A
  sections = record {
    flag = λ s. s.mem.data_lock;
    value = λ s. s.mem.inner;
    pc = λ s. s.pc;
    holds = holds;
    step = step;
    run = run;
    next = λ s e. (turn e.1 e.0 s.mem (s.pc e.0)).1;
    written = λ s e. written (s.pc e.0);
  }

  sections-IsLocking : IsLocking sections Sound
  unfolding run step
  sections-IsLocking = record {
    ran_none = λ s. refl;
    ran = λ s e es. refl;
    kept = λ s e. step-Sound s e;
    moved = λ s e. refl;
    shift = λ s e. turn-Shift e.1 e.0 s.mem (s.pc e.0);
    released = λ s e. turn_released e.1 e.0 s.mem (s.pc e.0);
    stored = λ s e v. turn_data e.1 e.0 s.mem (s.pc e.0) (v.fresh e.0);
  }

  -- The mutex refines a lock. Any interleaving of its callers, whatever they wait in, comes to a
  -- sequence of operations that a lock allows, each by the thread that took the turn: acquire while
  -- nobody has the lock, release and modify by its owner alone. Run one after the other they give the
  -- data that the mutex holds; and the lock has an owner exactly when the flag is set, and it is the
  -- one thread that holds the guard.
  pub mutex_refines_lock :
      (a : A) (es : List (ℕ × Choice A))
      → Locked sections (ops sections (init a) es) (none, a) (run (init a) es)
  mutex_refines_lock a es =
      run-Locked sections sections-IsLocking (init a) es none (init-Sound a) (refl, λ u. refl)
