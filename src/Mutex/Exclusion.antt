-- ===== src/Mutex/Exclusion.antt =====
-- Who owns the guard of a mutex.
use wasm_safe_thread.Base.{ℕ, ◌≡◌, ◌∙◌, inl, inr, Bool, true, false, List, arith, ◌==◌, Bool-cases}
use wasm_safe_thread.Interleave.{Shift, Excl, Shift-Excl}
use wasm_safe_thread.Mutex.State.{
  Mem, Pc, Choice, BlockPc, AsyncPc, SpinPc, UnlockPc, idle, block, async, spin, held, loaded,
  unlock,
}
use wasm_safe_thread.Mutex.Block.{lock_block}
use wasm_safe_thread.Mutex.Async.{lock_async}
use wasm_safe_thread.Mutex.Spin.{lock_spin}
use wasm_safe_thread.Mutex.Unlock.{did_unlock, drop_guard}
use wasm_safe_thread.Mutex.Machine.{System, turn, step, run, init, run_inv}

module _ {A : Type 0} where
  -- The thread has won `data_lock`, and has not released it.
  abbrev pub holds : Pc A → Bool
  holds (block _ BlockPc.leave_locked) = true
  holds (async _ AsyncPc.leave_locked) = true
  holds held = true
  holds (loaded _ _) = true
  holds _ = false

  abbrev Shifts : Mem A → Pc A → Mem A × Pc A → Type 0
  Shifts m p r = Shift m.data_lock (holds p) r.0.data_lock (holds r.1)

  lock_block-Shift :
      (timed : Bool) (c : Choice A) (t : ℕ) (m : Mem A) (p : BlockPc)
      → Shifts m (block timed p) (lock_block timed c t m p)
  unfolding lock_block
  lock_block-Shift timed c t m BlockPc.check = ground arith
  lock_block-Shift timed c t m p = ground arith

  lock_async-Shift :
      (timed : Bool) (c : Choice A) (m : Mem A) (p : AsyncPc)
      → Shifts m (async timed p) (lock_async timed c m p)
  unfolding lock_async
  lock_async-Shift timed c m AsyncPc.check = ground arith
  lock_async-Shift timed c m p = ground arith

  lock_spin-Shift :
      (timed : Bool) (c : Choice A) (m : Mem A) (p : SpinPc)
      → Shifts m (spin timed p) (lock_spin timed c m p)
  unfolding lock_spin
  lock_spin-Shift timed c m SpinPc.swap = ground arith
  lock_spin-Shift timed c m p = ground arith

  did_unlock-Shift : (m : Mem A) (p : UnlockPc) → Shifts m (unlock p) (did_unlock m p)
  unfolding did_unlock
  did_unlock-Shift m UnlockPc.enter_sync = ground arith
  did_unlock-Shift m p = ground arith

  pub turn-Shift : (c : Choice A) (t : ℕ) (m : Mem A) (p : Pc A) → Shifts m p (turn c t m p)
  unfolding turn drop_guard
  turn-Shift c t m idle = ground arith
  turn-Shift c t m (block timed p) = lock_block-Shift timed c t m p
  turn-Shift c t m (async timed p) = lock_async-Shift timed c m p
  turn-Shift c t m (spin timed p) = lock_spin-Shift timed c m p
  turn-Shift c t m held = ground arith
  turn-Shift c t m (loaded f a) = ground arith
  turn-Shift c t m (unlock p) = did_unlock-Shift m p

  step-Excl :
      (s : System A) (e : ℕ × Choice A)
      → Excl holds s.pc s.mem.data_lock
      → Excl holds (step s e).pc (step s e).mem.data_lock
  unfolding step
  step-Excl s (t, c) v = Shift-Excl holds t _ (turn-Shift c t s.mem (s.pc t)) v

  init-Excl : (a : A) → Excl holds (init a).pc (init a).mem.data_lock
  init-Excl a = record { owned = λ t h. ground arith; unique = λ t u h k. ground arith }

  -- After any schedule an owned mutex is locked, and it has one owner.
  pub run-Excl :
      (a : A) (es : List (ℕ × Choice A))
      → Excl holds (run (init a) es).pc (run (init a) es).mem.data_lock
  run-Excl a es = run_inv (λ s. Excl holds s.pc s.mem.data_lock) step-Excl (init a) es (init-Excl a)

  -- What a guard has read is what the mutex holds: nobody else writes the data.
  abbrev pub IsFresh : Mem A → Pc A → Type 0
  IsFresh m (loaded f a) = m.inner ≡ a
  IsFresh m _ = Unit {0}

  -- A turn leaves the data as they are, or its thread owns the guard.
  abbrev Respects : Mem A → Pc A → Mem A → Type 0
  Respects m p m' = holds p ≡ false → m'.inner ≡ m.inner

  turn-Respects : (c : Choice A) (t : ℕ) (m : Mem A) (p : Pc A) → Respects m p (turn c t m p).0
  unfolding turn lock_block lock_async lock_spin did_unlock drop_guard
  turn-Respects c t m idle = ground arith
  turn-Respects c t m p = ground arith

  turn-IsFresh :
      (c : Choice A) (t : ℕ) (m : Mem A) (p : Pc A)
      → IsFresh m p
      → IsFresh (turn c t m p).0 (turn c t m p).1
  unfolding turn lock_block lock_async lock_spin did_unlock drop_guard
  turn-IsFresh c t m idle h = ground arith
  turn-IsFresh c t m p h = ground arith

  pub record Sound (s : System A) : Type 0 where
    pub excl : Excl holds s.pc s.mem.data_lock
    pub fresh : (t : ℕ) → IsFresh s.mem (s.pc t)

  other_IsFresh :
      (c : Choice A) (t u : ℕ) (m : Mem A) (p q : Pc A)
      → (holds p ≡ true → holds q ≡ true → ⊥)
      → IsFresh m q
      → IsFresh (turn c t m p).0 q
  other_IsFresh c t u m p (loaded f a) apart h = turn-Respects c t m p (ground (arith, apart)) ∙ h
  other_IsFresh c t u m p q apart h = ground arith

  pub step-Sound : (s : System A) (e : ℕ × Choice A) → Sound s → Sound (step s e)
  unfolding step
  step-Sound s (t, c) v = record {
    excl = Shift-Excl holds t _ (turn-Shift c t s.mem (s.pc t)) v.excl;
    fresh = λ u. elim (Bool-cases (t == u)) [
      | inl same ↦ ground (arith, turn-IsFresh c t s.mem (s.pc t) (v.fresh t))
      | inr other ↦ ground (
        arith,
        other_IsFresh c t u s.mem (s.pc t) (s.pc u)
            (λ h k. absurd (ground (arith, v.excl.unique t u h k))) (v.fresh u),
      )
    ];
  }

  pub init-Sound : (a : A) → Sound (init a)
  init-Sound a = record {
    excl = record { owned = λ t h. ground arith; unique = λ t u h k. ground arith };
    fresh = λ t. tt;
  }

  -- An owned mutex is locked and has one owner, after any schedule.
  pub run-Sound : (a : A) (es : List (ℕ × Choice A)) → Sound (run (init a) es)
  run-Sound a es = run_inv Sound step-Sound (init a) es (init-Sound a)
