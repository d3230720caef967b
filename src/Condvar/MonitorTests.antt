-- ===== src/Condvar/MonitorTests.antt =====
-- The theorems on the loops over a condition, for a thread that waits for a number of at least 3.
use wasm_safe_thread.Base.{
  ℕ, zero, suc, ◌≡◌, refl, Bool, true, false, List, [], ◌∷◌, ◌++◌, ltb, pop_last,
}
use wasm_safe_thread.Condvar.State.{spin}
use wasm_safe_thread.Condvar.Notify.{notify}
use wasm_safe_thread.Condvar.Wait.{go, wait, wait_spin}
use wasm_safe_thread.Condvar.Monitor.{
  Choice, event, lock, unlock, write, wait_while, start_one, turn, step, run, init,
}
use wasm_safe_thread.Condvar.MonitorSafety.{Knows, condition_is_false_on_return}
use wasm_safe_thread.Condvar.Calls.{Serves, calls, no_calls, loops_serve_their_calls}

abbrev below : ℕ → ℕ → Bool × ℕ
below c d = (ltb d c, d)

abbrev goes : ℕ → ℕ → List (ℕ × Choice ℕ ℕ)
goes t zero = []
goes t (suc n) = (t, event go) ∷ goes t n

-- Thread 1 waits; thread 0 writes 5 and notifies; thread 1 goes on.
abbrev write_and_notify : List (ℕ × Choice ℕ ℕ)
write_and_notify =
    (1, lock) ∷ goes 1 1
    ++ ((1, wait_while spin false 3) ∷ goes 1 3)
    ++ ((0, lock) ∷ goes 0 1)
    ++ ((0, write 5) ∷ (0, unlock) ∷ (0, start_one) ∷ goes 0 3)
    ++ goes 1 3

condition_is_false_example :
    let s = run below (init 0) write_and_notify in
    (s.shared.cond.mutex ≡ true) × ((e : ℕ) × (below 3 e ≡ (false, s.shared.value)))
unfolding run step turn wait wait_spin notify pop_last
condition_is_false_example = condition_is_false_on_return below 0 write_and_notify 1 3 refl

-- Its loop has returned, with the condition of its call.
loops_serve_their_calls_example :
    let s = run below (init 0) write_and_notify in
    Serves below (calls below 1 (init 0) write_and_notify no_calls) (s.pc 1)
    × Knows below s.shared (s.pc 1)
loops_serve_their_calls_example = loops_serve_their_calls below 0 write_and_notify 1
