-- ===== src/Mpsc/Stranded.antt =====
-- The last sender is dropped between the receiver's load of `sender_count` and its registration.
use wasm_safe_thread.Base.{
  ℕ, ◌≡◌, ◌<◌, refl, inl, inr, false, List, [], ◌∷◌, ◌++◌, arith, ltb, Bool-cases,
}
use wasm_safe_thread.Condvar.State.{spin, Cond}
use wasm_safe_thread.Condvar.Notify.{notify}
use wasm_safe_thread.Condvar.Wait.{wait, wait_spin, register, sleep, go}
use wasm_safe_thread.Mpsc.State.{Choice, sender, absent, waiting, event, drop, clone}
use wasm_safe_thread.Mpsc.Send.{send_turn}
use wasm_safe_thread.Mpsc.Recv.{recv_turn}
use wasm_safe_thread.Mpsc.Machine.{System, turn, move, step, run}

abbrev pub NobodyWaits : Cond → Type 0
NobodyWaits c =
    (c.waiting_spin_threads ≡ []) × (c.waiting_sync_threads ≡ []) × (c.waiting_async_threads ≡ [])

module _ {A : Type 0} where
  record IsStranded (k : ℕ) (s : System A) : Type 0 where
    two : s.threads ≡ 2
    asleep : s.pc 0 ≡ waiting spin false (sleep k)
    gone : s.pc 1 ≡ absent
    unset : s.shared.cond.flag k ≡ false

  move-IsStranded :
      (k : ℕ) (s : System A) (t : ℕ) (x : Choice A)
      → t < 2
      → IsStranded k s
      → IsStranded k (move s t x)
  unfolding turn send_turn recv_turn wait wait_spin
  move-IsStranded k s t (clone u) lt v = record {
    two = ground (arith, v);
    asleep = ground (arith, v);
    gone = ground (arith, v);
    unset = ground (arith, v);
  }
  move-IsStranded k s t x lt v = record {
    two = v.two;
    asleep = ground (arith, v);
    gone = ground (arith, v);
    unset = ground (arith, v);
  }

  step-IsStranded :
      (k : ℕ) (s : System A) (e : ℕ × Choice A) → IsStranded k s → IsStranded k (step s e)
  unfolding step
  step-IsStranded k s (t, x) v = elim (Bool-cases (ltb t s.threads)) [
    | inl real ↦ rw real (move-IsStranded k s t x (ground (arith, v.two)) v)
    | inr unreal ↦ rw unreal v
  ]

  run-IsStranded :
      (k : ℕ) (s : System A) (es : List (ℕ × Choice A)) → IsStranded k s → IsStranded k (run s es)
  unfolding run
  run-IsStranded k s [] v = v
  run-IsStranded k s (e ∷ es) v = run-IsStranded k (step s e) es (step-IsStranded k s e v)

  -- Thread 1 drops its sender and notifies all; then thread 0 registers, and drops the guard.
  abbrev pub late_registration : List (ℕ × Choice A)
  late_registration =
      (1, drop)
      ∷ (1, event go)
      ∷ (1, event go)
      ∷ (1, event go)
      ∷ (1, event go)
      ∷ (1, event go)
      ∷ (1, event go)
      ∷ (0, event go)
      ∷ (0, event go)
      ∷ []

  run-append : (s : System A) (es fs : List (ℕ × Choice A)) → run s (es ++ fs) ≡ run (run s es) fs
  unfolding run
  run-append s [] fs = refl
  run-append s (e ∷ es) fs = run-append (step s e) es fs

  late-IsStranded :
      (s : System A)
      → s.threads ≡ 2
      → s.pc 0 ≡ waiting spin false register
      → s.pc 1 ≡ sender
      → s.shared.sender_count ≡ 1
      → NobodyWaits s.shared.cond
      → s.shared.cond.flag s.shared.cond.next ≡ false
      → IsStranded s.shared.cond.next (run s late_registration)
  unfolding run step turn send_turn recv_turn wait wait_spin notify
  late-IsStranded s two r e one_left none_waits new = record {
    two = ground arith;
    asleep = ground arith;
    gone = ground arith;
    unset = ground arith;
  }

  -- When the receiver has seen one sender left and an empty queue, and that sender is dropped before
  -- the receiver's registration, nobody is notified: whatever happens after it, the receiver spins
  -- in `wait_spin` for ever, although no sender is left.
  pub dropped_sender_strands_receiver :
      (s : System A) (fs : List (ℕ × Choice A))
      → s.threads ≡ 2
      → s.pc 0 ≡ waiting spin false register
      → s.pc 1 ≡ sender
      → s.shared.sender_count ≡ 1
      → NobodyWaits s.shared.cond
      → s.shared.cond.flag s.shared.cond.next ≡ false
      → let s' = run s (late_registration ++ fs) in
        (s'.pc 0 ≡ waiting spin false (sleep s.shared.cond.next)) × (s'.pc 1 ≡ absent)
  dropped_sender_strands_receiver s fs two r e one_left none_waits new =
      let v =
        run-IsStranded s.shared.cond.next (run s late_registration) fs
          (late-IsStranded s two r e one_left none_waits new) in
      rw (run-append s late_registration fs) (v.asleep, v.gone)
