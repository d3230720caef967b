-- ===== src/Mpsc/Recv.antt =====
-- The receiver of src/mpsc.rs: `try_recv`, `recv_spin`, `recv_block`, `recv_sync`, `recv_async` and
-- their timed variants, and its drop. `recv_sync` is `recv_block` or `recv_spin`.
use wasm_safe_thread.Base.{ℕ, Bool, true, false, List, [], ◌∷◌, if◌then◌else◌, ◌==◌, ◌&&◌}
use wasm_safe_thread.Condvar.State.{How, async, Cond}
use wasm_safe_thread.Condvar.Notify.{notify, notify_all}
use wasm_safe_thread.Condvar.Wait.{WaitPc, Event, go, late, spurious, register, done, wait}
use wasm_safe_thread.Mpsc.State.{
  Shared, Pc, Choice, Mode, try_recv, recv, message, empty, disconnected, timeout, receiver,
  locking, take, count, waiting, returning, returned, closing, closed, event, drop, try_receive,
  receive,
}
use wasm_safe_thread.Mpsc.Send.{set_cond, locked, unlocked, notified}

module _ {A : Type 0} where
  -- The first access of each call. `try_recv` is `Empty` when the mutex is locked; `Receiver::drop`
  -- stores false in `receiver_active`, and notifies all.
  abbrev pub begin_recv : Choice A → Shared A → Shared A × Pc A
  begin_recv try_receive s = if s.cond.mutex then (s, returned empty) else (locked s, take try_recv)
  begin_recv (receive h timed) s = (s, locking h timed)
  begin_recv drop s = (record s { receiver_active = false }, closing notify_all)
  begin_recv _ s = (s, receiver)

  -- `lock_spin` and the like; a lock with a deadline gives up after it. A task whose timeout won the
  -- race gives up although the mutex may be free by then, which the event `spurious` stands for here.
  abbrev pub lock_queue : Choice A → How → Bool → Shared A → Shared A × Pc A
  lock_queue (event late) h true s =
      if s.cond.mutex then (s, returned timeout) else (locked s, take (recv h true))
  lock_queue (event spurious) async true s = (s, returned timeout)
  lock_queue _ h timed s =
      if s.cond.mutex then (s, locking h timed) else (locked s, take (recv h timed))

  -- `queue.pop_front()`.
  abbrev pub pop_front : Mode → List A → Shared A → Shared A × Pc A
  pop_front m [] s = (s, count m)
  pop_front m (v ∷ vs) s = (record s { queue = vs }, returning (message v))

  -- The channel is empty, and some sender is left.
  abbrev pub no_message : Mode → Pc A
  no_message try_recv = returning empty
  no_message (recv h timed) = waiting h timed register

  -- A wait is over: the loop goes on, unless it timed out.
  abbrev pub after_wait : How → Bool → Shared A → Cond × WaitPc → Shared A × Pc A
  after_wait h timed s (c, done timed_out) =
      (set_cond c s, if timed && timed_out then returning timeout else take (recv h timed))
  after_wait h timed s (c, p) = (set_cond c s, waiting h timed p)

  abbrev pub the_event : Choice A → Event
  the_event (event e) = e
  the_event _ = go

  unfoldable pub recv_turn : Choice A → ℕ → Shared A → Pc A → Shared A × Pc A
  recv_turn x t s receiver = begin_recv x s
  recv_turn x t s (locking h timed) = lock_queue x h timed s
  recv_turn x t s (take m) = pop_front m s.queue s
  recv_turn x t s (count m) =
      (s, if s.sender_count == 0 then returning disconnected else no_message m)
  recv_turn x t s (waiting h timed p) = after_wait h timed s (wait h timed (the_event x) t s.cond p)
  recv_turn x t s (returning r) = (unlocked s, returned r)
  recv_turn x t s (returned r) = (s, receiver)
  recv_turn x t s (closing p) = notified closing closed s (notify s.cond p)
  recv_turn x t s p = (s, p)
