-- ===== src/Mpsc/Send.antt =====
-- The sender of src/mpsc.rs: `send_spin`, `send_block`, `send_sync` and `send_async`, which differ in
-- how they wait for the lock, and the drop of a handle.
use wasm_safe_thread.Base.{◌+◌, ◌-◌, ◌%◌, true, if◌then◌else◌, ◌==◌, push}
use wasm_safe_thread.Condvar.State.{Cond}
use wasm_safe_thread.Condvar.Notify.{NotifyPc, notify, notify_one, notify_all, done}
use wasm_safe_thread.Condvar.Wait.{unlock}
use wasm_safe_thread.Mpsc.State.{
  Shared, Pc, Choice, usize, absent, sender, check, enter, recheck, put, leave, reject, refused,
  notify_sent, notify_dropped, send, drop,
}

module _ {A : Type 0} where
  abbrev pub set_cond : Cond → Shared A → Shared A
  set_cond c s = record s { cond = c }

  abbrev pub locked : Shared A → Shared A
  locked s = set_cond (record (s.cond) { mutex = true }) s

  -- The drop of the queue's guard.
  abbrev pub unlocked : Shared A → Shared A
  unlocked s = set_cond (unlock s.cond) s

  -- A notification runs, and `next` follows it.
  abbrev pub notified : (NotifyPc → Pc A) → Pc A → Shared A → Cond × NotifyPc → Shared A × Pc A
  notified self next s (c, done) = (set_cond c s, next)
  notified self next s (c, p) = (set_cond c s, self p)

  -- `Sender::drop`: `fetch_sub(1)`, and `notify_all` if it was the last.
  abbrev pub drop_sender : Shared A → Shared A × Pc A
  drop_sender s = (
    record s { sender_count = (s.sender_count + (usize - 1)) % usize },
    if s.sender_count == 1 then notify_dropped notify_all else absent,
  )

  abbrev pub begin_send : Choice A → Shared A → Shared A × Pc A
  begin_send (send v) s = (s, check v)
  begin_send drop s = drop_sender s
  begin_send _ s = (s, sender)

  unfoldable pub send_turn : Choice A → Shared A → Pc A → Shared A × Pc A
  send_turn x s sender = begin_send x s
  send_turn x s (check v) = (s, if s.receiver_active then enter v else refused v)
  send_turn x s (enter v) = if s.cond.mutex then (s, enter v) else (locked s, recheck v)
  send_turn x s (recheck v) = (s, if s.receiver_active then put v else reject v)
  send_turn x s (put v) = (record s { queue = push s.queue v }, leave)
  send_turn x s leave = (unlocked s, notify_sent notify_one)
  send_turn x s (reject v) = (unlocked s, refused v)
  send_turn x s (refused v) = (s, sender)
  send_turn x s (notify_sent p) = notified notify_sent sender s (notify s.cond p)
  send_turn x s (notify_dropped p) = notified notify_dropped absent s (notify s.cond p)
  send_turn x s p = (s, p)
