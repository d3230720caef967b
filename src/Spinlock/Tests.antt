-- ===== src/Spinlock/Tests.antt =====
-- The theorems on a spinlock, for two threads that add and multiply.
use wasm_safe_thread.Base.{ℕ, ◌≡◌, refl, true, List, [], ◌∷◌, ◌+◌, ◌*◌, none, some}
use wasm_safe_thread.Spinlock.Closure.{
  Outcome, returns, panics, new, with_mut, with_mut_returns, panic_locks_forever,
}
use wasm_safe_thread.Spinlock.Threads.{Choice, go, run, init, step, turn, commits}
use wasm_safe_thread.Spinlock.Threads
use wasm_safe_thread.Spinlock.Atomic.{closures_are_atomic, apply_all}

-- Thread 1 spins while thread 0 is inside.
abbrev add_mul : List (ℕ × Choice ℕ)
add_mul =
    (0, Threads.with_mut (λ x. x + 2))
    ∷ (1, Threads.with_mut (λ x. x * 3))
    ∷ (0, go)
    ∷ (1, go)
    ∷ (0, go)
    ∷ (1, go)
    ∷ (0, go)
    ∷ (0, go)
    ∷ (1, go)
    ∷ (1, go)
    ∷ (1, go)
    ∷ []

closures_are_atomic_example :
    (run (init 5) add_mul).mem.value ≡ apply_all (commits (init 5) add_mul) 5
closures_are_atomic_example = closures_are_atomic 5 add_mul

add_mul-run : (run (init 5) add_mul).mem.value ≡ 21
unfolding run step turn
add_mul-run = refl

abbrev increment : ℕ → Outcome ℕ ℕ
increment x = returns x (x + 1)

abbrev give_up : ℕ → Outcome ℕ ℕ
give_up x = panics (x + 1)

with_mut_returns_example : with_mut 1 increment (new 5) ≡ some (some 5, new 6)
with_mut_returns_example = with_mut_returns 0 increment 5 6 5 refl

panic_locks_forever_example : with_mut 9 increment (record { value = 6; locked = true }) ≡ none
unfolding with_mut
panic_locks_forever_example =
    panic_locks_forever 1 9 give_up increment 5 (record { value = 6; locked = true }) refl
