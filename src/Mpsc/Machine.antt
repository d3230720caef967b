-- ===== src/Mpsc/Machine.antt =====
-- `threads` owners of the handles of one channel, in any interleaving: thread 0 has the receiver,
-- thread 1 the first sender, and a sender may be cloned for a thread that has no handle.
use wasm_safe_thread.Base.{ℕ, zero, suc, ◌+◌, ◌%◌, List, [], ◌∷◌, ◌++◌, if◌then◌else◌, ltb, update}
use wasm_safe_thread.Mpsc.State.{
  Shared, Pc, Choice, channel, usize, absent, sender, receiver, put, take, clone, locking, count,
  waiting, returning, message, returned, closing, closed,
}
use wasm_safe_thread.Mpsc.Send.{send_turn}
use wasm_safe_thread.Mpsc.Recv.{recv_turn}

-- `pushed` logs what the senders stored in the queue, and `received` what the receiver's calls returned,
-- in order.
pub record System (A : Type 0) : Type 0 where
  pub threads : ℕ
  pub shared : Shared A
  pub pc : ℕ → Pc A
  pub pushed : List A
  pub received : List A

module _ {A : Type 0} where
  unfoldable pub turn : Choice A → ℕ → Shared A → Pc A → Shared A × Pc A
  turn x t s receiver = recv_turn x t s receiver
  turn x t s (locking h timed) = recv_turn x t s (locking h timed)
  turn x t s (take m) = recv_turn x t s (take m)
  turn x t s (count m) = recv_turn x t s (count m)
  turn x t s (waiting h timed p) = recv_turn x t s (waiting h timed p)
  turn x t s (returning r) = recv_turn x t s (returning r)
  turn x t s (returned r) = recv_turn x t s (returned r)
  turn x t s (closing p) = recv_turn x t s (closing p)
  turn x t s closed = recv_turn x t s closed
  turn x t s p = send_turn x s p

  abbrev pub puts : Pc A → List A
  puts (put v) = v ∷ []
  puts _ = []

  -- The message that a receive is about to return.
  abbrev pub in_hand : Pc A → List A
  in_hand (returning (message v)) = v ∷ []
  in_hand _ = []

  abbrev pub moved : System A → ℕ → Shared A × Pc A → System A
  moved s t r = record s {
    shared = r.0;
    pc = update s.pc t r.1;
    pushed = s.pushed ++ puts (s.pc t);
    received = s.received ++ in_hand (s.pc t);
  }

  -- `Sender::clone`: `fetch_add(1)`, and a new handle.
  abbrev pub with_clone : System A → ℕ → System A
  with_clone s u = record s {
    shared = record (s.shared) { sender_count = (s.shared.sender_count + 1) % usize };
    pc = update s.pc u sender;
  }

  abbrev pub cloned : Pc A → Pc A → System A → ℕ → System A
  cloned sender absent s u = with_clone s u
  cloned _ _ s u = s

  abbrev pub move : System A → ℕ → Choice A → System A
  move s t (clone u) = if ltb u s.threads then cloned (s.pc t) (s.pc u) s u else s
  move s t x = moved s t (turn x t s.shared (s.pc t))

  unfoldable pub step : System A → ℕ × Choice A → System A
  step s (t, x) = if ltb t s.threads then move s t x else s

  abbrev pub handles : ℕ → Pc A
  handles zero = receiver
  handles (suc zero) = sender
  handles (suc (suc _)) = absent

  abbrev pub init : ℕ → System A
  init threads = record {
    threads = threads;
    shared = channel;
    pc = handles;
    pushed = [];
    received = [];
  }

  unfoldable pub run : System A → List (ℕ × Choice A) → System A
  run s [] = s
  run s (e ∷ es) = run (step s e) es
