-- ===== src/Mpsc/Roles.antt =====
-- What the owner of a handle has at each point: the queue's guard, a sender that counts, and what it
-- knows of the channel.
use wasm_safe_thread.Base.{ℕ, ◌+◌, ◌≡◌, ◌≢◌, ◌≤◌, ◌<◌, Bool, true, false, [], arith}
use wasm_safe_thread.Interleave.{Shift, one}
use wasm_safe_thread.Condvar.State.{How, Cond}
use wasm_safe_thread.Condvar.Wait.{WaitPc, wait}
use wasm_safe_thread.Condvar.Owners.{owns, notify_mutex, wait-Shift}
use wasm_safe_thread.Mpsc.State.{
  Shared, Pc, Choice, disconnected, sender, check, enter, recheck, put, leave, reject, refused,
  notify_sent, notify_dropped, usize, closing, closed, locking, receiver, take, count, waiting,
  returning, returned,
}
use wasm_safe_thread.Mpsc.Send.{send_turn}
use wasm_safe_thread.Mpsc.Recv.{recv_turn, after_wait, the_event}
use wasm_safe_thread.Mpsc.Machine.{turn}

module _ {A : Type 0} where
  abbrev pub guarded : Pc A → Bool
  guarded (recheck _) = true
  guarded (put _) = true
  guarded leave = true
  guarded (reject _) = true
  guarded (take _) = true
  guarded (count _) = true
  guarded (waiting _ _ p) = owns p
  guarded (returning _) = true
  guarded _ = false

  -- The handle is a sender that has not begun its drop.
  abbrev pub alive : Pc A → Bool
  alive sender = true
  alive (check _) = true
  alive (enter _) = true
  alive (recheck _) = true
  alive (put _) = true
  alive leave = true
  alive (reject _) = true
  alive (refused _) = true
  alive (notify_sent _) = true
  alive _ = false

  -- The handle is the receiver.
  abbrev pub is_receiver : Pc A → Bool
  is_receiver receiver = true
  is_receiver (locking _ _) = true
  is_receiver (take _) = true
  is_receiver (count _) = true
  is_receiver (waiting _ _ _) = true
  is_receiver (returning _) = true
  is_receiver (returned _) = true
  is_receiver (closing _) = true
  is_receiver closed = true
  is_receiver _ = false

  -- No turn makes a sender of it, or of a sender the receiver.
  pub turn-is_receiver :
      (x : Choice A) (t : ℕ) (s : Shared A) (p : Pc A)
      → is_receiver (turn x t s p).1 ≡ is_receiver p
  unfolding turn send_turn recv_turn
  turn-is_receiver x t s sender = ground arith
  turn-is_receiver x t s receiver = ground arith
  turn-is_receiver x t s p = ground arith

  -- What a call knows while it is there.
  abbrev pub Knows : Shared A → Pc A → Type 0
  Knows s (count m) = s.queue ≡ []
  Knows s (returning disconnected) = (s.queue ≡ []) × (s.sender_count ≡ 0)
  Knows s (returned disconnected) = (s.queue ≡ []) × (s.sender_count ≡ 0)
  Knows s (reject _) = s.receiver_active ≡ false
  Knows s (refused _) = s.receiver_active ≡ false
  Knows s _ = Unit {0}

  abbrev Shifts : Shared A → Pc A → Shared A × Pc A → Type 0
  Shifts s p r = Shift s.cond.mutex (guarded p) r.0.cond.mutex (guarded r.1)

  guarded-after_wait :
      (h : How) (timed : Bool) (s : Shared A) (c : Cond) (p : WaitPc)
      → (guarded (after_wait h timed s (c, p)).1 ≡ owns p)
        × ((after_wait h timed s (c, p)).0.cond.mutex ≡ c.mutex)
  guarded-after_wait h timed s c p = ground arith

  pub turn-Shift : (x : Choice A) (t : ℕ) (s : Shared A) (p : Pc A) → Shifts s p (turn x t s p)
  unfolding turn send_turn recv_turn
  turn-Shift x t s (waiting h timed p) =
      let r = wait h timed (the_event x) t s.cond p in
      let e = guarded-after_wait h timed s r.0 r.1 in
      rw (e.0, e.1) (wait-Shift h timed (the_event x) t s.cond p)
  turn-Shift x t s (notify_sent p) = ground (arith, notify_mutex s.cond p)
  turn-Shift x t s (notify_dropped p) = ground (arith, notify_mutex s.cond p)
  turn-Shift x t s (closing p) = ground (arith, notify_mutex s.cond p)
  turn-Shift x t s sender = ground arith
  turn-Shift x t s receiver = ground arith
  turn-Shift x t s p = ground arith

  -- A turn that ends the life of a sender takes it off the count, and no other turn changes it.
  pub turn-count :
      (x : Choice A) (t : ℕ) (s : Shared A) (p : Pc A)
      → one (alive p) ≤ s.sender_count
      → s.sender_count < usize
      → (turn x t s p).0.sender_count + one (alive p)
        ≡ s.sender_count + one (alive (turn x t s p).1)
  unfolding turn send_turn recv_turn
  turn-count x t s sender h k = ground arith
  turn-count x t s receiver h k = ground arith
  turn-count x t s p h k = ground arith

  pub self_Knows :
      (x : Choice A) (t : ℕ) (s : Shared A) (p : Pc A)
      → Knows s p
      → Knows (turn x t s p).0 (turn x t s p).1
  unfolding turn send_turn recv_turn
  self_Knows x t s sender h = ground arith
  self_Knows x t s receiver h = ground arith
  self_Knows x t s p h = ground arith

  -- What a call knows, no other thread changes.
  pub other_Knows :
      (x : Choice A) (t : ℕ) (s : Shared A) (p q : Pc A)
      → (guarded p ≡ true → guarded q ≡ true → ⊥)
      → (alive p ≡ true → s.sender_count ≢ 0)
      → Knows s q
      → Knows (turn x t s p).0 q
  unfolding turn send_turn recv_turn
  other_Knows x t s p q apart living h = ground arith
