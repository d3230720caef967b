-- ===== src/Mutex/Tests.antt =====
-- The theorems on a mutex, on short schedules of two or three threads.
use wasm_safe_thread.Base.{none, ℕ, ◌≡◌, refl, true, false, List, [], ◌∷◌, ◌++◌, arith, ◌==◌, ◌+◌}
use wasm_safe_thread.Mutex.State.{Mem, Choice, Call, new, idle, held, go, drop, call, write}
use wasm_safe_thread.Mutex.Block.{lock_block}
use wasm_safe_thread.Mutex.Async.{lock_async}
use wasm_safe_thread.Mutex.Unlock.{drop_guard, did_unlock}
use wasm_safe_thread.Mutex.Machine.{step, run, init, turn, with_guard}
use wasm_safe_thread.Mutex.Solo.{solo, only}
use wasm_safe_thread.Interleave.Sections.{ops, Locked}
use wasm_safe_thread.Mutex.Refinement.{sections, mutex_refines_lock}
use wasm_safe_thread.Mutex.Safety.{mutual_exclusion, no_caller_forgotten, unlocking}
use wasm_safe_thread.Mutex.Progress.{contended_try_lock}
use wasm_safe_thread.Mutex.Release.{drop_hands_over, drop_turns}

abbrev goes : List (Choice ℕ)
goes = go ∷ go ∷ go ∷ go ∷ go ∷ []

-- Thread 0 owns the mutex, and thread 1 parks in `lock_block`.
abbrev one_parks : List (ℕ × Choice ℕ)
one_parks = (0, call Call.try_lock true) ∷ only 1 (call (Call.lock_block false) true ∷ goes)

-- Thread 0 owns the mutex, and task 1 awaits its continuation in `lock_async`.
abbrev one_awaits : List (ℕ × Choice ℕ)
one_awaits = (0, call Call.try_lock true) ∷ only 1 (call (Call.lock_async false) true ∷ goes)

-- Thread 0 then drops its guard.
abbrev release : List (ℕ × Choice ℕ)
release = only 0 (drop ∷ go ∷ go ∷ go ∷ go ∷ goes)

mutual_exclusion_example : ◌≡◌ {A = ℕ} 0 0
unfolding run step turn lock_block
mutual_exclusion_example = mutual_exclusion 5 one_parks 0 0 refl refl

-- Thread 0 owns the mutex and its closure runs, thread 1 waits and has the guard then.
abbrev one_after_the_other : List (ℕ × Choice ℕ)
one_after_the_other = one_parks ++ ((0, write (λ x. x + 2)) ∷ (0, go) ∷ release) ++ only 1 goes

mutex_refines_lock_example :
    Locked sections
      (ops sections (init 5) one_after_the_other)
      (none, 5)
      (run (init 5) one_after_the_other)
mutex_refines_lock_example = mutex_refines_lock 5 one_after_the_other

nobody_unlocks : (u : ℕ) → unlocking ((run (init 5) (one_parks ++ release)).pc u) ≡ false
unfolding run step turn lock_block with_guard did_unlock drop_guard
nobody_unlocks u = ground arith

no_caller_forgotten_example : (run (init 5) (one_parks ++ release)).mem.token 1 ≡ true
unfolding run step turn lock_block with_guard did_unlock drop_guard
no_caller_forgotten_example = no_caller_forgotten 5 (one_parks ++ release) 1 refl nobody_unlocks

no_task_unlocks : (u : ℕ) → unlocking ((run (init 5) (one_awaits ++ release)).pc u) ≡ false
unfolding run step turn lock_async with_guard did_unlock drop_guard
no_task_unlocks u = ground arith

-- The same for a task.
awaited_is_sent : (run (init 5) (one_awaits ++ release)).mem.sent 0 ≡ true
unfolding run step turn lock_async with_guard did_unlock drop_guard
awaited_is_sent = no_caller_forgotten 5 (one_awaits ++ release) 1 refl no_task_unlocks

abbrev locked : Mem ℕ
locked = record (new 5) { data_lock = true }

contended_try_lock_example : solo 3 (call Call.try_lock true ∷ []) (locked, idle) ≡ (locked, idle)
contended_try_lock_example = contended_try_lock locked 3 true refl

abbrev unparked : Mem ℕ
unparked = record (new 5) { token = λ u. u == 3 }

abbrev crowded : Mem ℕ
crowded = record (new 5) {
  data_lock = true;
  waiting_sync_threads = 3 ∷ 4 ∷ [];
  waiting_async_threads = 0 ∷ [];
  next = 1;
}

drop_hands_over_example :
    let s = run (init 5) one_parks in
    (run (run s (only 0 (drop_turns s.mem))) (only 1 goes)).pc 1 ≡ held
unfolding run step turn lock_block
drop_hands_over_example =
    drop_hands_over (run (init 5) one_parks) 1 0 false (refl, refl) refl refl refl
