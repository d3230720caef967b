-- ===== src/Mpsc/Safety.antt =====
-- What holds of a channel after any interleaving of its handles' owners.
use wasm_safe_thread.Base.{
  ℕ, suc, ◌≡◌, ◌<◌, ◌∙◌, ◌==◌, ap, sym, subst, true, false, List, [], ◌++◌, arith,
}
use mathlib.Core.List.{append-nil}
use wasm_safe_thread.Interleave.{count}
use wasm_safe_thread.Mpsc.State.{Pc, Choice, Shared, usize, disconnected, returned, refused}
use wasm_safe_thread.Mpsc.Machine.{System, run, init, in_hand}
use wasm_safe_thread.Mpsc.Roles.{guarded, alive, is_receiver, Knows}
use wasm_safe_thread.Mpsc.Invariant.{run-Inv}

module _ {A : Type 0} where
  -- After any interleaving, `sender_count` is the number of sender handles that have not begun their
  -- drop; it does not wrap.
  pub sender_count_lem :
      (n : ℕ) (es : List (ℕ × Choice A))
      → suc (suc n) < usize
      → let s = run (init (suc (suc n))) es in s.shared.sender_count ≡ count alive s.threads s.pc
  sender_count_lem n es h = (run-Inv n es h).tally

  -- After any interleaving, two threads never have the guard of the queue together.
  pub queue_guard_is_exclusive :
      (n : ℕ) (es : List (ℕ × Choice A)) (t u : ℕ)
      → suc (suc n) < usize
      → guarded ((run (init (suc (suc n))) es).pc t) ≡ true
      → guarded ((run (init (suc (suc n))) es).pc u) ≡ true
      → t ≡ u
  queue_guard_is_exclusive n es t u h = (run-Inv n es h).excl.unique t u

  cast_Knows : (s : Shared A) (p q : Pc A) → p ≡ q → Knows s p → Knows s q
  cast_Knows s p q e k = subst (Knows s) e k

  -- After any interleaving, when a receive has returned `Disconnected` no sender handle is left, and
  -- every message that was stored has been returned by a receive.
  pub disconnected_is_final :
      (n : ℕ) (es : List (ℕ × Choice A)) (t : ℕ)
      → suc (suc n) < usize
      → (run (init (suc (suc n))) es).pc t ≡ returned disconnected
      → let s = run (init (suc (suc n))) es in
        (count alive s.threads s.pc ≡ 0) × (s.received ≡ s.pushed)
  disconnected_is_final n es t h e =
      let s : System A = run (init (suc (suc n))) es in
      let v = run-Inv n es h in
      let k = cast_Knows s.shared (s.pc t) (returned disconnected) e (v.knows t) in
      (sym v.tally ∙ k.1, received_all s v.fifo k.0 (nothing_left e (v.sides t)))
    where
      nothing_left :
          (run (init (suc (suc n))) es).pc t ≡ returned disconnected
          → is_receiver ((run (init (suc (suc n))) es).pc t) ≡ (t == 0)
          → in_hand ((run (init (suc (suc n))) es).pc 0) ≡ []
      nothing_left d side =
          let own : t ≡ 0 = ground (arith, side, ap is_receiver d) in
          ap (λ u. in_hand ((run (init (suc (suc n))) es).pc u)) (sym own) ∙ ap in_hand d

      received_all :
          (s : System A)
          → s.received ++ (in_hand (s.pc 0) ++ s.shared.queue) ≡ s.pushed
          → s.shared.queue ≡ []
          → in_hand (s.pc 0) ≡ []
          → s.received ≡ s.pushed
      received_all s f e k = ground (arith, f, append-nil s.received)

  -- After any interleaving, when a send has given its message back, the receiver has been dropped.
  pub refused_after_close :
      (n : ℕ) (es : List (ℕ × Choice A)) (t : ℕ) (v : A)
      → suc (suc n) < usize
      → (run (init (suc (suc n))) es).pc t ≡ refused v
      → (run (init (suc (suc n))) es).shared.receiver_active ≡ false
  refused_after_close n es t v h e =
      let s : System A = run (init (suc (suc n))) es in
      cast_Knows s.shared (s.pc t) (refused v) e ((run-Inv n es h).knows t)
