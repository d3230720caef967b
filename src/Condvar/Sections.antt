-- ===== src/Condvar/Sections.antt =====
-- The lock under the condition variable: every interleaving of the loops over a condition, of writes
-- and of notifications is a sequence of critical sections.
use wasm_safe_thread.Base.{
  ℕ, ◌≡◌, refl, sym, ◌∙◌, Bool, true, false, List, Option, none, some, arith,
}
use wasm_safe_thread.Interleave.Lock.{data_after}
use wasm_safe_thread.Interleave.Sections.{Machine, IsLocking, ops, Locked, run-Locked}
use wasm_safe_thread.Condvar.State.{How, Cond}
use wasm_safe_thread.Condvar.Wait.{
  WaitPc, Event, wait, wait_block, wait_block_timeout, wait_spin, wait_spin_timeout, wait_async,
  wait_async_timeout,
}
use wasm_safe_thread.Condvar.Owners.{owns}
use wasm_safe_thread.Condvar.Monitor.{
  Pc, idle, owner, testing, waiting, notifying, Choice, write, Shared, System, turn, after_wait,
  the_event, step, run, init,
}
use wasm_safe_thread.Condvar.MonitorSafety.{guarded, guarded-after_wait, turn-Shift}

wait_released :
    (h : How) (timed : Bool) (e : Event) (t : ℕ) (c : Cond) (p : WaitPc)
    → owns p ≡ true
    → owns (wait h timed e t c p).1 ≡ false
    → (wait h timed e t c p).0.mutex ≡ false
unfolding wait wait_block wait_block_timeout wait_spin wait_spin_timeout wait_async
    wait_async_timeout
wait_released h timed e t c p o o' = ground arith

nothing_written : {D : Type 0} (b b' : Bool) (d : D) → data_after b b' none d ≡ d
nothing_written b b' d = ground arith

module _ {C D : Type 0} (eval : C → D → Bool × D) where
  -- What a thread with the guard does to the value: the test of a condition, or a write.
  abbrev pub written : Choice C D → Pc C → Option (D → D)
  written x (testing h timed c) = some (λ d. (eval c d).1)
  written (write d) owner = some (λ e. d)
  written x p = none

  turn_released :
      (x : Choice C D) (t : ℕ) (s : Shared D) (p : Pc C)
      → guarded p ≡ true
      → guarded (turn eval x t s p).1 ≡ false
      → (turn eval x t s p).0.cond.mutex ≡ false
  unfolding turn
  turn_released x t s (waiting h timed c p) o o' =
      let r = wait h timed (the_event eval x) t s.cond p in
      let e = guarded-after_wait eval h timed c s r.0 r.1 in
      ground (arith, e.0, e.1, wait_released h timed (the_event eval x) t s.cond p)
  turn_released x t s (notifying held p) o o' = ground arith
  turn_released x t s owner o o' = ground arith
  turn_released x t s p o o' = ground arith

  after_wait_value :
      (h : How) (timed : Bool) (c : C) (s : Shared D) (k : Cond) (p : WaitPc)
      → (after_wait eval h timed c s (k, p)).0.value ≡ s.value
  after_wait_value h timed c s k p = ground arith

  turn_data :
      (x : Choice C D) (t : ℕ) (s : Shared D) (p : Pc C)
      → (turn eval x t s p).0.value
        ≡ data_after (guarded p) (guarded (turn eval x t s p).1) (written x p) s.value
  unfolding turn
  turn_data x t s (testing h timed c) = ground arith
  turn_data x t s idle = ground arith
  turn_data x t s owner = ground arith
  turn_data x t s (waiting h timed c p) =
      let r = wait h timed (the_event eval x) t s.cond p in
      after_wait_value h timed c s r.0 r.1
      ∙ sym (nothing_written (owns p) (guarded (after_wait eval h timed c s (r.0, r.1)).1) s.value)
  turn_data x t s p = ground arith

  abbrev pub sections : Machine (System C D) (Choice C D) (Pc C) D
  sections = record {
    flag = λ s. s.shared.cond.mutex;
    value = λ s. s.shared.value;
    pc = λ s. s.pc;
    holds = guarded;
    step = step eval;
    run = run eval;
    next = λ s e. (turn eval e.1 e.0 s.shared (s.pc e.0)).1;
    written = λ s e. written e.1 (s.pc e.0);
  }

  sections-IsLocking : IsLocking sections (λ s. Unit {0})
  unfolding run step
  sections-IsLocking = record {
    ran_none = λ s. refl;
    ran = λ s e es. refl;
    kept = λ s e v. tt;
    moved = λ s e. refl;
    shift = λ s e. turn-Shift eval e.1 e.0 s.shared (s.pc e.0);
    released = λ s e. turn_released e.1 e.0 s.shared (s.pc e.0);
    stored = λ s e v. turn_data e.1 e.0 s.shared (s.pc e.0);
  }

  -- What the loops over a condition do to the mutex is what a lock allows. Any interleaving comes to a
  -- sequence of acquires while nobody has the lock, and of releases, tests of conditions and writes by
  -- its owner alone; run one after the other they give the value, and the lock has an owner exactly
  -- when its flag is set, and it is the one thread that has the guard.
  pub loops_refine_lock :
      (d : D) (es : List (ℕ × Choice C D))
      → Locked sections (ops sections (init d) es) (none, d) (run eval (init d) es)
  loops_refine_lock d es =
      run-Locked sections sections-IsLocking (init d) es none tt (refl, λ u. refl)
