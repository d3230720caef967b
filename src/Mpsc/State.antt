-- ===== src/Mpsc/State.antt =====
-- What the two halves of a channel share, and where their owners stand.
use wasm_safe_thread.Base.{ℕ, Bool, true, List, []}
use wasm_safe_thread.Condvar.State.{How, Cond}
use wasm_safe_thread.Condvar.State
use wasm_safe_thread.Condvar.Notify.{NotifyPc}
use wasm_safe_thread.Condvar.Wait.{WaitPc, Event}

-- `Shared`: the queue in its mutex, whose lock is the `mutex` of `cond`, and the condition variable.
pub record Shared (A : Type 0) : Type 0 where
  pub queue : List A
  pub cond : Cond
  pub sender_count : ℕ
  pub receiver_active : Bool

-- `AtomicUsize` on wasm32.
abbrev pub usize : ℕ
usize = 4294967296

-- `channel`: one sender.
abbrev pub channel : {A : Type 0} → Shared A
channel = record { queue = []; cond = State.new; sender_count = 1; receiver_active = true }

-- `try_recv`, or a receive that waits, with a deadline or without.
pub data Mode : Type 0 where
  try_recv : Mode
  recv : How → (timed : Bool) → Mode

-- What a receive returns: `TryRecvError`, `RecvError` and `RecvTimeoutError` in one.
pub data Received (A : Type 0) : Type 0 where
  message : A → Received A
  empty disconnected timeout : Received A

-- No handle; a sender between calls; in `send` of `v`, before the first load of `receiver_active`,
-- before the lock, before the second load, before the push, before the drop of the guard; with an
-- error, before the drop of the guard, and returned; in the notification of a send, and in that of
-- the last sender's drop. The receiver between calls; before the lock, the pop, and the load of
-- `sender_count`; in a wait; before the drop of the guard, and returned; and in its own drop.
pub data Pc (A : Type 0) : Type 0 where
  absent sender : Pc A
  check enter recheck put : (v : A) → Pc A
  leave : Pc A
  reject refused : (v : A) → Pc A
  notify_sent notify_dropped : NotifyPc → Pc A
  receiver : Pc A
  locking : How → (timed : Bool) → Pc A
  take count : Mode → Pc A
  waiting : How → (timed : Bool) → WaitPc → Pc A
  returning returned : Received A → Pc A
  closing : NotifyPc → Pc A
  closed : Pc A

-- The next call of a handle, or what happens in a call.
pub data Choice (A : Type 0) : Type 0 where
  event : Event → Choice A
  send : A → Choice A
  clone : (other : ℕ) → Choice A
  drop try_receive : Choice A
  receive : How → (timed : Bool) → Choice A
