-- ===== src/Mutex/State.antt =====
-- The memory of a `Mutex<A>` with the threads' park tokens, and the program counters of its callers.
use wasm_safe_thread.Base.{ℕ, Bool, false, List, []}

-- The fields of `Mutex`, each `Spinlock<Vec<_>>` as its flag and its list. `token` is the park
-- token of each thread, `sent` says which continuations were sent, and `next` numbers new ones.
pub record Mem (A : Type 0) : Type 0 where
  pub inner : A
  pub data_lock : Bool
  pub sync_locked : Bool
  pub waiting_sync_threads : List ℕ
  pub async_locked : Bool
  pub waiting_async_threads : List ℕ
  pub token : ℕ → Bool
  pub sent : ℕ → Bool
  pub next : ℕ

-- `Mutex::new`.
abbrev pub new : {A : Type 0} → A → Mem A
new value = record {
  inner = value;
  data_lock = false;
  sync_locked = false;
  waiting_sync_threads = [];
  async_locked = false;
  waiting_async_threads = [];
  token = λ _. false;
  sent = λ _. false;
  next = 0;
}

-- A caller of `lock_block` or `lock_block_timeout`: at the deadline test, at its last attempt,
-- before the swap that enters the spinlock of the list, before `try_lock`, before the push,
-- before the store that leaves the spinlock (with the guard, or to wait), and in `park`.
pub data BlockPc : Type 0 where
  check last enter attempt enlist leave_locked leave_waiting park : BlockPc

-- The same for `lock_async`; `k` is the continuation that it pushed.
pub data AsyncPc : Type 0 where
  check last enter attempt enlist leave_locked : AsyncPc
  leave_waiting await : (k : ℕ) → AsyncPc

-- `lock_spin`: before the swap, and at the deadline test.
pub data SpinPc : Type 0 where
  swap clock : SpinPc

-- `did_unlock`, with the threads and senders that it has taken.
pub data UnlockPc : Type 0 where
  enter_sync take_sync : UnlockPc
  leave_sync unpark : (threads : List ℕ) → UnlockPc
  enter_async take_async : UnlockPc
  leave_async send : (senders : List ℕ) → UnlockPc

-- Where a thread or task stands. `timed` tells a call with a deadline; `held` owns a guard, and
-- `loaded f a` has read `a` through it and will write `f a`.
pub data Pc (A : Type 0) : Type 0 where
  idle : Pc A
  block : (timed : Bool) → BlockPc → Pc A
  async : (timed : Bool) → AsyncPc → Pc A
  spin : (timed : Bool) → SpinPc → Pc A
  held : Pc A
  loaded : (f : A → A) (a : A) → Pc A
  unlock : UnlockPc → Pc A

pub data Call : Type 0 where
  try_lock : Call
  lock_block lock_async lock_spin lock_sync : (timed : Bool) → Call

-- What the environment decides at a step: nothing; that a deadline has passed, or the timeout has
-- fired; that `park` returns for no reason; the next call of an idle thread, and whether
-- `Atomics.wait` is there for it; a closure to run on the data; the drop of the guard.
pub data Choice (A : Type 0) : Type 0 where
  go late spurious drop : Choice A
  call : Call → (wait_supported : Bool) → Choice A
  write : (A → A) → Choice A
