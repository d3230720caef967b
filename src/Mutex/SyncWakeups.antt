-- ===== src/Mutex/SyncWakeups.antt =====
-- The threads that `lock_block` parks: what one turn does to `waiting_sync_threads`.
use wasm_safe_thread.Base.{
  ℕ, ◌≡◌, refl, inl, inr, Bool, true, false, List, [], ◌==◌, ◌&&◌, arith, elem-push,
}
use wasm_safe_thread.Interleave.{Roles, Guarantee, WaitersInv, Guarantee-WaitersInv}
use wasm_safe_thread.Mutex.State.{Mem, Pc, Choice, BlockPc, UnlockPc, block, unlock}
use wasm_safe_thread.Mutex.Block.{lock_block}
use wasm_safe_thread.Mutex.Async.{lock_async}
use wasm_safe_thread.Mutex.Spin.{lock_spin}
use wasm_safe_thread.Mutex.Unlock.{did_unlock, drop_guard}
use wasm_safe_thread.Mutex.Machine.{System, turn, step, run, init, run_inv}

module _ {A : Type 0} where
  abbrev pub inside : Pc A → Bool
  inside (block _ BlockPc.attempt) = true
  inside (block _ BlockPc.enlist) = true
  inside (block _ BlockPc.leave_locked) = true
  inside (block _ BlockPc.leave_waiting) = true
  inside (unlock UnlockPc.take_sync) = true
  inside (unlock (UnlockPc.leave_sync _)) = true
  inside _ = false

  abbrev pub failed : Pc A → Bool
  failed (block _ BlockPc.enlist) = true
  failed _ = false

  abbrev pub releasing : Pc A → Bool
  releasing (unlock UnlockPc.enter_sync) = true
  releasing (unlock UnlockPc.take_sync) = true
  releasing _ = false

  abbrev pub pending : Pc A → List ℕ
  pending (unlock (UnlockPc.leave_sync ts)) = ts
  pending (unlock (UnlockPc.unpark ts)) = ts
  pending _ = []

  -- Between its push and the end of `park`.
  abbrev pub sleeps : Pc A → Bool
  sleeps (block _ BlockPc.leave_waiting) = true
  sleeps (block _ BlockPc.park) = true
  sleeps _ = false

  pub failed-inside : (p : Pc A) → failed p ≡ true → inside p ≡ true
  failed-inside (block _ BlockPc.enlist) h = refl
  failed-inside p h = ground arith

  abbrev pub sync_roles : Roles (Pc A)
  sync_roles = record {
    inside = inside;
    failed = failed;
    releasing = releasing;
    pending = pending;
    awaits = λ t p k. t == k && sleeps p;
    failed_inside = failed-inside;
  }

  abbrev Guarantees : ℕ → Mem A → Pc A → Mem A × Pc A → Type 0
  Guarantees t m p (m', p') =
      Guarantee sync_roles t p p' m.data_lock m'.data_lock m.sync_locked m'.sync_locked
        m.waiting_sync_threads m'.waiting_sync_threads m.token m'.token

  enlist-Guarantees :
      (timed : Bool) (c : Choice A) (t : ℕ) (m : Mem A)
      → Guarantees t m (block timed BlockPc.enlist) (lock_block timed c t m BlockPc.enlist)
  unfolding lock_block
  enlist-Guarantees timed c t m = record {
    shift = ground arith;
    waits = λ k h. inr (ground (arith, elem-push k t m.waiting_sync_threads));
    kept = λ u k q ne a w. ground arith;
    queued = λ k h. inl (ground (arith, elem-push k t m.waiting_sync_threads));
    pended = λ k h. ground arith;
    entered = λ k h. inr refl;
    busied = λ h. inl h;
    tried = λ h. ground arith;
    released = λ h. ground arith;
  }

  turn-Guarantees : (c : Choice A) (t : ℕ) (m : Mem A) (p : Pc A) → Guarantees t m p (turn c t m p)
  unfolding turn lock_block lock_async lock_spin did_unlock drop_guard
  turn-Guarantees c t m (block timed BlockPc.enlist) = enlist-Guarantees timed c t m
  turn-Guarantees c t m p = record {
    shift = ground arith;
    waits = λ k h. ground arith;
    kept = λ u k q ne a w. ground arith;
    queued = λ k h. ground arith;
    pended = λ k h. ground arith;
    entered = λ k h. ground arith;
    busied = λ h. ground arith;
    tried = λ h. ground arith;
    released = λ h. ground arith;
  }

  -- The invariant of `waiting_sync_threads`: no parked thread is forgotten.
  abbrev pub SyncInv : System A → Type 0
  SyncInv s =
      WaitersInv sync_roles s.pc s.mem.data_lock s.mem.sync_locked s.mem.waiting_sync_threads
        s.mem.token

  step-SyncInv : (s : System A) (e : ℕ × Choice A) → SyncInv s → SyncInv (step s e)
  unfolding step
  step-SyncInv s (t, c) v =
      Guarantee-WaitersInv sync_roles t _ (turn-Guarantees c t s.mem (s.pc t)) v

  init-SyncInv : (a : A) → SyncInv (init a)
  init-SyncInv a = record {
    excl = record { owned = λ t h. ground arith; unique = λ t u h k. ground arith };
    covered = λ t k h. ground arith;
    alert = λ k h. ground arith;
    failing = λ t h. ground arith;
  }

  pub run-SyncInv : (a : A) (es : List (ℕ × Choice A)) → SyncInv (run (init a) es)
  run-SyncInv a es = run_inv SyncInv step-SyncInv (init a) es (init-SyncInv a)
