-- ===== src/Mutex/Safety.antt =====
-- What holds of a mutex after any interleaving of its callers.
use wasm_safe_thread.Base.{ℕ, ◌≡◌, refl, subst, inl, inr, Bool, true, false, List, arith, elem}
use wasm_safe_thread.Interleave.{no_lost_wakeup}
use wasm_safe_thread.Mutex.State.{Mem, Pc, Choice, block, async, loaded, unlock, BlockPc, AsyncPc}
use wasm_safe_thread.Mutex.Machine.{step, run, init, turn}
use wasm_safe_thread.Mutex.Exclusion.{holds, IsFresh, run-Sound}
use wasm_safe_thread.Mutex.SyncWakeups
use wasm_safe_thread.Mutex.SyncWakeups.{run-SyncInv, sync_roles}
use wasm_safe_thread.Mutex.AsyncWakeups
use wasm_safe_thread.Mutex.AsyncWakeups.{run-AsyncInv, async_roles}

module _ {A : Type 0} where
  -- Whatever calls are made and however they interleave, two threads never own the guard of one
  -- mutex together.
  pub mutual_exclusion :
      (a : A) (es : List (ℕ × Choice A)) (t u : ℕ)
      → holds ((run (init a) es).pc t) ≡ true
      → holds ((run (init a) es).pc u) ≡ true
      → t ≡ u
  mutual_exclusion a es t u = (run-Sound a es).excl.unique t u

  fresh_loaded :
      (m : Mem A) (p : Pc A) (f : A → A) (x : A) → p ≡ loaded f x → IsFresh m p → m.inner ≡ x
  fresh_loaded m p f x e h = subst (IsFresh m) e h

  -- After any interleaving, when a guard has read `x` and its closure `f` is about to write, the
  -- mutex still holds `x`: the write stores `f` of the current data, and no update is lost.
  no_lost_update :
      (a : A) (es : List (ℕ × Choice A)) (t : ℕ) (f : A → A) (x : A) (c : Choice A)
      → (run (init a) es).pc t ≡ loaded f x
      → (step (run (init a) es) (t, c)).mem.inner ≡ f (run (init a) es).mem.inner
  unfolding step turn
  no_lost_update a es t f x c e =
      ground (arith, fresh_loaded (run (init a) es).mem _ f x e ((run-Sound a es).fresh t))

  -- The thread is in `did_unlock`.
  abbrev pub unlocking : Pc A → Bool
  unlocking (unlock _) = true
  unlocking _ = false

  quiet_sync :
      (p : Pc A)
      → unlocking p ≡ false
      → (SyncWakeups.releasing p ≡ false) × ((k : ℕ) → elem k (SyncWakeups.pending p) ≡ false)
  quiet_sync (unlock q) h = cc
  quiet_sync p h = (refl, λ k. refl)

  quiet_async :
      (p : Pc A)
      → unlocking p ≡ false
      → (AsyncWakeups.releasing p ≡ false) × ((k : ℕ) → elem k (AsyncWakeups.pending p) ≡ false)
  quiet_async (unlock q) h = cc
  quiet_async p h = (refl, λ k. refl)

  -- After any interleaving, while the mutex is unlocked and no thread is in `did_unlock`, a thread
  -- that waits in the `park` of `lock_block` has its unpark token: it will return.
  no_thread_forgotten :
      (a : A) (es : List (ℕ × Choice A)) (t : ℕ) (timed : Bool)
      → (run (init a) es).mem.data_lock ≡ false
      → ((u : ℕ) → unlocking ((run (init a) es).pc u) ≡ false)
      → (run (init a) es).pc t ≡ block timed BlockPc.park
      → (run (init a) es).mem.token t ≡ true
  no_thread_forgotten a es t timed free quiet e =
      elim (no_lost_wakeup sync_roles (run-SyncInv a es) free (λ u. (quiet_sync _ (quiet u)).0) t t
        (rw e (ground arith))) [ inl w ↦ w | inr (u, w) ↦ cc ((quiet_sync _ (quiet u)).1 t) ]

  -- After any interleaving, while the mutex is unlocked and no thread is in `did_unlock`, a task that awaits its continuation in `lock_async` has been sent it.
  no_task_forgotten :
      (a : A) (es : List (ℕ × Choice A)) (t k : ℕ) (timed : Bool)
      → (run (init a) es).mem.data_lock ≡ false
      → ((u : ℕ) → unlocking ((run (init a) es).pc u) ≡ false)
      → (run (init a) es).pc t ≡ async timed (AsyncPc.await k)
      → (run (init a) es).mem.sent k ≡ true
  no_task_forgotten a es t k timed free quiet e =
      elim (no_lost_wakeup async_roles (run-AsyncInv a es) free (λ u. (quiet_async _ (quiet u)).0) t
        k (rw e (ground arith))) [ inl w ↦ w | inr (u, w) ↦ cc ((quiet_async _ (quiet u)).1 k) ]

  -- What a caller waits for is there: the unpark token of a thread in the `park` of `lock_block`, and
  -- the continuation of a task in `lock_async`.
  abbrev pub IsRoused : Mem A → ℕ → Pc A → Type 0
  IsRoused m t (block timed BlockPc.park) = m.token t ≡ true
  IsRoused m t (async timed (AsyncPc.await k)) = m.sent k ≡ true
  IsRoused m t _ = Unit {0}

  IsRoused-if :
      (m : Mem A) (t : ℕ) (p : Pc A)
      → ((timed : Bool) → p ≡ block timed BlockPc.park → m.token t ≡ true)
      → ((timed : Bool) (k : ℕ) → p ≡ async timed (AsyncPc.await k) → m.sent k ≡ true)
      → IsRoused m t p
  IsRoused-if m t (block timed BlockPc.park) b a = b timed refl
  IsRoused-if m t (async timed (AsyncPc.await k)) b a = a timed k refl
  IsRoused-if m t p b a = ground arith

  -- After any interleaving, while the mutex is unlocked and no thread is in `did_unlock`, every caller
  -- that waits will go on: a thread that waits in the `park` of `lock_block` has its unpark token, and a
  -- task that awaits its continuation in `lock_async` has been sent it.
  pub no_caller_forgotten :
      (a : A) (es : List (ℕ × Choice A)) (t : ℕ)
      → (run (init a) es).mem.data_lock ≡ false
      → ((u : ℕ) → unlocking ((run (init a) es).pc u) ≡ false)
      → IsRoused (run (init a) es).mem t ((run (init a) es).pc t)
  no_caller_forgotten a es t free quiet =
      IsRoused-if (run (init a) es).mem t ((run (init a) es).pc t)
        (λ timed e. no_thread_forgotten a es t timed free quiet e)
        (λ timed k e. no_task_forgotten a es t k timed free quiet e)
