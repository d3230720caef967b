-- ===== src/Mpsc/Unsent.antt =====
-- A receiver whose only sender is kept and never used, as by a worker that did not come to run its
-- closure.
use wasm_safe_thread.Base.{
  ℕ, ◌≡◌, refl, Bool, true, false, List, [], ◌∷◌, arith, ltb, inl, inr, Bool-cases,
}
use wasm_safe_thread.Condvar.State.{How, Cond}
use wasm_safe_thread.Condvar.Wait.{WaitPc, wait}
use wasm_safe_thread.Mpsc.State.{
  Shared, Pc, Choice, sender, locking, take, count, waiting, recv, receive, clone,
}
use wasm_safe_thread.Mpsc.Recv.{recv_turn, after_wait, the_event}
use wasm_safe_thread.Mpsc.Machine.{System, turn, move, step, run, init}

module _ {A : Type 0} where
  -- The receiver is in a receive without a deadline, and has found nothing.
  abbrev pub is_receiving : Pc A → Bool
  is_receiving (locking _ false) = true
  is_receiving (take (recv _ false)) = true
  is_receiving (count (recv _ false)) = true
  is_receiving (waiting _ false _) = true
  is_receiving _ = false

  record IsUnsent (s : System A) : Type 0 where
    receiving : is_receiving (s.pc 0) ≡ true
    unused : s.pc 1 ≡ sender
    empty_queue : s.shared.queue ≡ []
    one_sender : s.shared.sender_count ≡ 1
    nothing : s.received ≡ []

  after_wait-receiving :
      (h : How) (s : Shared A) (r : Cond × WaitPc)
      → (is_receiving (after_wait h false s r).1 ≡ true)
        × ((after_wait h false s r).0.queue ≡ s.queue)
        × ((after_wait h false s r).0.sender_count ≡ s.sender_count)
  after_wait-receiving h s (c, p) = ground arith

  turn-receiving :
      (x : Choice A) (t : ℕ) (s : Shared A) (p : Pc A)
      → is_receiving p ≡ true
      → s.queue ≡ []
      → s.sender_count ≡ 1
      → (is_receiving (turn x t s p).1 ≡ true)
        × ((turn x t s p).0.queue ≡ [])
        × ((turn x t s p).0.sender_count ≡ 1)
  unfolding turn recv_turn
  turn-receiving x t s (waiting h false p) r q n =
      ground (arith, after_wait-receiving h s (wait h false (the_event x) t s.cond p))
  turn-receiving x t s p r q n = ground arith

  cloned_sender : (s : System A) (u : ℕ) → IsUnsent s → move s 0 (clone u) ≡ s
  cloned_sender s u v = ground (arith, v)

  move-IsUnsent : (s : System A) (x : Choice A) → IsUnsent s → IsUnsent (move s 0 x)
  move-IsUnsent s (clone u) v = rw (cloned_sender s u v) v
  move-IsUnsent s x v =
      let k = turn-receiving x 0 s.shared (s.pc 0) v.receiving v.empty_queue v.one_sender in
      record {
        receiving = ground (arith, k);
        unused = ground (arith, v);
        empty_queue = ground (arith, k);
        one_sender = ground (arith, k);
        nothing = ground (arith, v);
      }

  step-IsUnsent : (s : System A) (x : Choice A) → IsUnsent s → IsUnsent (step s (0, x))
  unfolding step
  step-IsUnsent s x v = elim (Bool-cases (ltb 0 s.threads)) [
    | inl real ↦ rw real (move-IsUnsent s x v)
    | inr unreal ↦ rw unreal v
  ]

  -- Turns of the receiver alone.
  abbrev pub alone : List (Choice A) → List (ℕ × Choice A)
  alone [] = []
  alone (x ∷ xs) = (0, x) ∷ alone xs

  run-IsUnsent : (s : System A) (xs : List (Choice A)) → IsUnsent s → IsUnsent (run s (alone xs))
  unfolding run
  run-IsUnsent s [] v = v
  run-IsUnsent s (x ∷ xs) v = run-IsUnsent (step s (0, x)) xs (step-IsUnsent s x v)

  receive-IsUnsent : (h : How) → IsUnsent (step (init 2) (0, receive h false))
  unfolding step turn recv_turn
  receive-IsUnsent h = record {
    receiving = refl;
    unused = refl;
    empty_queue = refl;
    one_sender = refl;
    nothing = refl;
  }

  -- A receive without a deadline does not return while the only sender exists and takes no turn: it
  -- has neither a message nor `Disconnected`, however often it is woken.
  pub unsent_never_returns :
      (h : How) (xs : List (Choice A))
      → let s = run (init 2) ((0, receive h false) ∷ alone xs) in
        (is_receiving (s.pc 0) ≡ true) × (s.received ≡ [])
  unfolding run
  unsent_never_returns h xs =
      let v = run-IsUnsent (step (init 2) (0, receive h false)) xs (receive-IsUnsent h) in
      (v.receiving, v.nothing)
