-- ===== src/Rwlock/State.antt =====
-- The memory of an `RwLock<A>` with the threads' park tokens, and its callers' program counters.
use wasm_safe_thread.Base.{ℕ, Bool, false, List, [], Option}

-- `UNLOCKED`, and `LOCKED_WRITE`, 0b10000000.
abbrev pub unlocked : ℕ
unlocked = 0

abbrev pub locked_write : ℕ
locked_write = 128

-- A `Spinlock<Vec<_>>` of waiters: its flag, and its list.
pub record Waiters : Type 0 where
  pub locked : Bool
  pub queue : List ℕ

abbrev pub no_waiters : Waiters
no_waiters = record { locked = false; queue = [] }

-- The four lists of waiters.
pub data Lane : Type 0 where
  sync_read async_read sync_write async_write : Lane

-- The fields of `RwLock`; `data_lock` is an `AtomicU8`. `token`, `sent` and `next` are the park
-- tokens and the continuations, as for a mutex.
pub record Mem (A : Type 0) : Type 0 where
  pub inner : A
  pub data_lock : ℕ
  pub waiting_sync_read_threads : Waiters
  pub waiting_async_read_threads : Waiters
  pub waiting_sync_write_threads : Waiters
  pub waiting_async_write_threads : Waiters
  pub token : ℕ → Bool
  pub sent : ℕ → Bool
  pub next : ℕ

-- `RwLock::new`.
abbrev pub new : {A : Type 0} → A → Mem A
new value = record {
  inner = value;
  data_lock = unlocked;
  waiting_sync_read_threads = no_waiters;
  waiting_async_read_threads = no_waiters;
  waiting_sync_write_threads = no_waiters;
  waiting_async_write_threads = no_waiters;
  token = λ _. false;
  sent = λ _. false;
  next = 0;
}

module _ {A : Type 0} where
  abbrev pub lane : Lane → Mem A → Waiters
  lane sync_read m = m.waiting_sync_read_threads
  lane async_read m = m.waiting_async_read_threads
  lane sync_write m = m.waiting_sync_write_threads
  lane async_write m = m.waiting_async_write_threads

  abbrev pub set_lane : Lane → Waiters → Mem A → Mem A
  set_lane sync_read w m = record m { waiting_sync_read_threads = w }
  set_lane async_read w m = record m { waiting_async_read_threads = w }
  set_lane sync_write w m = record m { waiting_sync_write_threads = w }
  set_lane async_write w m = record m { waiting_async_write_threads = w }

-- A caller that waits in a list: before the swap that enters the list's spinlock, before its
-- `try_lock`, before the push, before the store that leaves the spinlock (with the guard, or to
-- wait for ticket `k`), and asleep until `k` is woken.
pub data WaitPc : Type 0 where
  enter attempt enlist leave_locked : WaitPc
  leave_waiting asleep : (k : ℕ) → WaitPc

-- The drop of a guard, for one list after the other.
pub data UnlockPc : Type 0 where
  enter take : Lane → UnlockPc
  leave wake : Lane → (waiters : List ℕ) → UnlockPc

-- `seen a` has read `a` through a read guard, and `loaded f a` has read `a` through a write guard
-- and will write `f a`. `too_many` has panicked in `try_lock_read`, in the closure of the given
-- list's spinlock if there is one; `assert_failed` has panicked in the drop of a guard.
pub data Pc (A : Type 0) : Type 0 where
  idle : Pc A
  wait : Lane → WaitPc → Pc A
  spin_read spin_write : Pc A
  reading writing : Pc A
  seen : (a : A) → Pc A
  loaded : (f : A → A) (a : A) → Pc A
  unlock : UnlockPc → Pc A
  too_many : Option Lane → Pc A
  assert_failed : Pc A

pub data Call : Type 0 where
  try_lock_read lock_spin_read lock_block_read lock_async_read lock_sync_read : Call
  try_lock_write lock_spin_write lock_block_write lock_async_write lock_sync_write : Call

-- What the environment decides at a step, as for a mutex.
pub data Choice (A : Type 0) : Type 0 where
  go spurious drop read : Choice A
  call : Call → (wait_supported : Bool) → Choice A
  write : (A → A) → Choice A
