-- ===== src/Mutex/AsyncWakeups.antt =====
-- The tasks that await in `lock_async`: what one turn does to `waiting_async_threads`.
use wasm_safe_thread.Base.{
  ℕ, ◌≡◌, refl, inl, inr, Bool, true, false, List, [], ◌==◌, arith, elem-push,
}
use wasm_safe_thread.Interleave.{Roles, Guarantee, WaitersInv, Guarantee-WaitersInv}
use wasm_safe_thread.Mutex.State.{Mem, Pc, Choice, AsyncPc, UnlockPc, async, unlock}
use wasm_safe_thread.Mutex.Block.{lock_block}
use wasm_safe_thread.Mutex.Async.{lock_async}
use wasm_safe_thread.Mutex.Spin.{lock_spin}
use wasm_safe_thread.Mutex.Unlock.{did_unlock, drop_guard}
use wasm_safe_thread.Mutex.Machine.{System, turn, step, run, init, run_inv}

module _ {A : Type 0} where
  abbrev pub inside : Pc A → Bool
  inside (async _ AsyncPc.attempt) = true
  inside (async _ AsyncPc.enlist) = true
  inside (async _ AsyncPc.leave_locked) = true
  inside (async _ (AsyncPc.leave_waiting _)) = true
  inside (unlock UnlockPc.take_async) = true
  inside (unlock (UnlockPc.leave_async _)) = true
  inside _ = false

  abbrev pub failed : Pc A → Bool
  failed (async _ AsyncPc.enlist) = true
  failed _ = false

  -- All of `did_unlock` before it takes the senders.
  abbrev pub releasing : Pc A → Bool
  releasing (unlock (UnlockPc.leave_async _)) = false
  releasing (unlock (UnlockPc.send _)) = false
  releasing (unlock _) = true
  releasing _ = false

  abbrev pub pending : Pc A → List ℕ
  pending (unlock (UnlockPc.leave_async ks)) = ks
  pending (unlock (UnlockPc.send ks)) = ks
  pending _ = []

  -- The task waits for continuation `k`.
  abbrev pub awaits : Pc A → ℕ → Bool
  awaits (async _ (AsyncPc.leave_waiting j)) k = j == k
  awaits (async _ (AsyncPc.await j)) k = j == k
  awaits _ k = false

  pub failed-inside : (p : Pc A) → failed p ≡ true → inside p ≡ true
  failed-inside (async _ AsyncPc.enlist) h = refl
  failed-inside p h = ground arith

  abbrev pub async_roles : Roles (Pc A)
  async_roles = record {
    inside = inside;
    failed = failed;
    releasing = releasing;
    pending = pending;
    awaits = λ t p k. awaits p k;
    failed_inside = failed-inside;
  }

  abbrev Guarantees : ℕ → Mem A → Pc A → Mem A × Pc A → Type 0
  Guarantees t m p (m', p') =
      Guarantee async_roles t p p' m.data_lock m'.data_lock m.async_locked m'.async_locked
        m.waiting_async_threads m'.waiting_async_threads m.sent m'.sent

  enlist-Guarantees :
      (timed : Bool) (c : Choice A) (t : ℕ) (m : Mem A)
      → Guarantees t m (async timed AsyncPc.enlist) (lock_async timed c m AsyncPc.enlist)
  unfolding lock_async
  enlist-Guarantees timed c t m = record {
    shift = ground arith;
    waits = λ k h. inr (ground (arith, elem-push k m.next m.waiting_async_threads));
    kept = λ u k q ne a w. w;
    queued = λ k h. inl (ground (arith, elem-push k m.next m.waiting_async_threads));
    pended = λ k h. ground arith;
    entered = λ k h. inr refl;
    busied = λ h. inl h;
    tried = λ h. ground arith;
    released = λ h. ground arith;
  }

  turn-Guarantees : (c : Choice A) (t : ℕ) (m : Mem A) (p : Pc A) → Guarantees t m p (turn c t m p)
  unfolding turn lock_block lock_async lock_spin did_unlock drop_guard
  turn-Guarantees c t m (async timed AsyncPc.enlist) = enlist-Guarantees timed c t m
  turn-Guarantees c t m p = record {
    shift = ground arith;
    waits = λ k h. ground arith;
    kept = λ u k q ne a w. ground arith;
    queued = λ k h. ground arith;
    pended = λ k h. ground arith;
    entered = λ k h. ground arith;
    busied = λ h. ground arith;
    tried = λ h. ground arith;
    released = λ h. ground arith;
  }

  -- The invariant of `waiting_async_threads`: no awaiting task is forgotten.
  abbrev pub AsyncInv : System A → Type 0
  AsyncInv s =
      WaitersInv async_roles s.pc s.mem.data_lock s.mem.async_locked s.mem.waiting_async_threads
        s.mem.sent

  step-AsyncInv : (s : System A) (e : ℕ × Choice A) → AsyncInv s → AsyncInv (step s e)
  unfolding step
  step-AsyncInv s (t, c) v =
      Guarantee-WaitersInv async_roles t _ (turn-Guarantees c t s.mem (s.pc t)) v

  init-AsyncInv : (a : A) → AsyncInv (init a)
  init-AsyncInv a = record {
    excl = record { owned = λ t h. ground arith; unique = λ t u h k. ground arith };
    covered = λ t k h. ground arith;
    alert = λ k h. ground arith;
    failing = λ t h. ground arith;
  }

  pub run-AsyncInv : (a : A) (es : List (ℕ × Choice A)) → AsyncInv (run (init a) es)
  run-AsyncInv a es = run_inv AsyncInv step-AsyncInv (init a) es (init-AsyncInv a)
