-- ===== src/Condvar/State.antt =====
-- The three lists of a `Condvar`, and what is woken through them.
use wasm_safe_thread.Base.{ℕ, Bool, true, false, List, [], update}

-- How a thread waits: on a flag that it polls, in `park`, or in an async task.
pub data How : Type 0 where
  spin block async : How

-- `mutex` is the lock of the mutex whose guard the waiters give up. A flag, a park token and a
-- continuation are Booleans; flags and continuations (the `AsyncWaiter`s' ids) are numbered by
-- `next`, and a parked thread is registered under its own number. Each list is behind a spinlock,
-- so what a closure of `with_mut` does to it is one step.
pub record Cond : Type 0 where
  pub mutex : Bool
  pub waiting_spin_threads : List ℕ
  pub waiting_sync_threads : List ℕ
  pub waiting_async_threads : List ℕ
  pub flag : ℕ → Bool
  pub token : ℕ → Bool
  pub sent : ℕ → Bool
  pub next : ℕ

-- `Condvar::new`.
abbrev pub new : Cond
new = record {
  mutex = false;
  waiting_spin_threads = [];
  waiting_sync_threads = [];
  waiting_async_threads = [];
  flag = λ _. false;
  token = λ _. false;
  sent = λ _. false;
  next = 0;
}

abbrev pub list : How → Cond → List ℕ
list spin c = c.waiting_spin_threads
list block c = c.waiting_sync_threads
list async c = c.waiting_async_threads

abbrev pub set_list : How → List ℕ → Cond → Cond
set_list spin xs c = record c { waiting_spin_threads = xs }
set_list block xs c = record c { waiting_sync_threads = xs }
set_list async xs c = record c { waiting_async_threads = xs }

abbrev pub woken : How → Cond → ℕ → Bool
woken spin c = c.flag
woken block c = c.token
woken async c = c.sent

-- `store(true)`, `unpark()`, `send(())`.
abbrev pub wake_one : How → ℕ → Cond → Cond
wake_one spin k c = record c { flag = update c.flag k true }
wake_one block k c = record c { token = update c.token k true }
wake_one async k c = record c { sent = update c.sent k true }
