-- ===== src/Condvar/Covered.antt =====
-- No waiter of a condition variable is forgotten.
use wasm_safe_thread.Base.{ℕ, ◌≡◌, refl, Bool, List, [], ◌∷◌, arith, elem-push, elem-pop_last}
use wasm_safe_thread.Condvar.State.{How, Cond, list}
use wasm_safe_thread.Condvar.Notify.{notify, pop_from}
use wasm_safe_thread.Condvar.Wait.{WaitPc, wait, register, expired}
use wasm_safe_thread.Condvar.Machine.{Pc, Choice, turn, waiting, notifying}
use wasm_safe_thread.Condvar.Roles.{Guarantee, elem-remove}

module _ (h : How) (x : Choice) (t : ℕ) (c : Cond) where
  abbrev pub Guarantees : Pc → Type 0
  Guarantees p = Guarantee h t p (turn x t c p).1 c (turn x t c p).0

  register-Guarantees : (h' : How) (timed : Bool) → Guarantees (waiting h' timed register)
  unfolding turn wait
  register-Guarantees h' timed = record {
    stays = λ k a b. ground arith;
    starts = λ k a b. ground (arith, elem-push k t (list h c), elem-push k c.next (list h c));
    kept = λ u k q ne a w. ground arith;
    queued = λ k e. ground (arith, elem-push k t (list h c), elem-push k c.next (list h c));
    pended = λ k e. ground arith;
    counts = ground arith;
  }

  expired-Guarantees : (h' : How) (timed : Bool) (j : ℕ) → Guarantees (waiting h' timed (expired j))
  unfolding turn wait
  expired-Guarantees h' timed j = record {
    stays = λ k a b. ground arith;
    starts = λ k a b. ground arith;
    kept = λ u k q ne a w. ground arith;
    queued = λ k e. ground (arith, elem-remove k j (list h c), elem-remove k t (list h c));
    pended = λ k e. ground arith;
    counts = ground arith;
  }

  wait-Guarantees : (h' : How) (timed : Bool) (p : WaitPc) → Guarantees (waiting h' timed p)
  unfolding turn wait
  wait-Guarantees h' timed register = register-Guarantees h' timed
  wait-Guarantees h' timed (expired j) = expired-Guarantees h' timed j
  wait-Guarantees h' timed p = record {
    stays = λ k a b. ground arith;
    starts = λ k a b. ground arith;
    kept = λ u k q ne a w. ground arith;
    queued = λ k e. ground arith;
    pended = λ k e. ground arith;
    counts = ground arith;
  }

  pop-Guarantees :
      (held : Bool) (h' : How) (xs : List ℕ)
      → list h' c ≡ xs
      → Guarantees (notifying held (pop_from h'))
  unfolding turn notify
  pop-Guarantees held h' [] e = record {
    stays = λ k a b. ground arith;
    starts = λ k a b. ground arith;
    kept = λ u k q ne a w. ground arith;
    queued = λ k m. ground arith;
    pended = λ k m. ground arith;
    counts = ground arith;
  }
  pop-Guarantees held h' (y ∷ ys) e = record {
    stays = λ k a b. ground arith;
    starts = λ k a b. ground arith;
    kept = λ u k q ne a w. ground arith;
    queued = λ k m. ground (arith, elem-pop_last k y ys);
    pended = λ k m. ground arith;
    counts = ground arith;
  }

  pub turn-Guarantees : (p : Pc) → Guarantees p
  unfolding turn notify
  turn-Guarantees (waiting h' timed p) = wait-Guarantees h' timed p
  turn-Guarantees (notifying held (pop_from h')) = pop-Guarantees held h' (list h' c) refl
  turn-Guarantees p = record {
    stays = λ k a b. ground arith;
    starts = λ k a b. ground arith;
    kept = λ u k q ne a w. ground arith;
    queued = λ k m. ground arith;
    pended = λ k m. ground arith;
    counts = ground arith;
  }
