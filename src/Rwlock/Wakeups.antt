-- ===== src/Rwlock/Wakeups.antt =====
-- What one turn does to each list of waiters of a read-write lock, and that no waiter is forgotten.
use wasm_safe_thread.Base.{ℕ, ◌≡◌, ◌<◌, Bool, true, arith, elem-push}
use wasm_safe_thread.Interleave.{Guarantee, WaitersInv, Guarantee-WaitersInv}
use wasm_safe_thread.Rwlock.State.{
  Mem, Lane, Pc, Choice, WaitPc, locked_write, lane, sync_read, async_read, sync_write, async_write,
  wait,
}
use wasm_safe_thread.Rwlock.Read.{lock_spin_read, lock_block_read, lock_async_read}
use wasm_safe_thread.Rwlock.Write.{lock_spin_write, lock_block_write, lock_async_write}
use wasm_safe_thread.Rwlock.Unlock.{did_unlock, drop_read, drop_write}
use wasm_safe_thread.Rwlock.Machine.{System, turn, init, moved}
use wasm_safe_thread.Rwlock.Exclusion.{reads, writes}
use wasm_safe_thread.Rwlock.Roles.{roles, busy}

module _ {A : Type 0} where
  -- The tickets that a list's waiters wait for.
  abbrev pub woken : Lane → Mem A → ℕ → Bool
  woken sync_read m = m.token
  woken async_read m = m.sent
  woken sync_write m = m.token
  woken async_write m = m.sent

  -- What a guard says about the byte.
  pub record Guarded (m : Mem A) (p : Pc A) : Type 0 where
    pub read_guard : reads p ≡ true → (0 < m.data_lock) × (m.data_lock < locked_write)
    pub write_guard : writes p ≡ true → m.data_lock ≡ locked_write

  abbrev Guarantees : Lane → ℕ → Mem A → Pc A → Mem A × Pc A → Type 0
  Guarantees l t m p r =
      Guarantee (roles l) t p r.1 (busy l m) (busy l r.0) (lane l m).locked (lane l r.0).locked
        (lane l m).queue (lane l r.0).queue (woken l m) (woken l r.0)

  enlist-Guarantees :
      (l : Lane) (c : Choice A) (t : ℕ) (m : Mem A) (l' : Lane)
      → Guarantees l t m (wait l' WaitPc.enlist) (turn c t m (wait l' WaitPc.enlist))
  unfolding turn lock_block_read lock_async_read lock_block_write lock_async_write
  enlist-Guarantees l c t m l' = record {
    shift = ground arith;
    waits =
        λ k h. ground (arith, elem-push k t (lane l m).queue, elem-push k m.next (lane l m).queue);
    kept = λ u k q ne a w. ground arith;
    queued =
        λ k h. ground (arith, elem-push k t (lane l m).queue, elem-push k m.next (lane l m).queue);
    pended = λ k h. ground arith;
    entered = λ k h. ground arith;
    busied = λ h. ground arith;
    tried = λ h. ground arith;
    released = λ h. ground arith;
  }

  turn-Guarantees :
      (l : Lane) (c : Choice A) (t : ℕ) (m : Mem A) (p : Pc A)
      → Guarded m p
      → Guarantees l t m p (turn c t m p)
  unfolding turn lock_spin_read lock_spin_write drop_read drop_write lock_block_read lock_async_read
      lock_block_write lock_async_write did_unlock
  turn-Guarantees l c t m (wait l' WaitPc.enlist) g = enlist-Guarantees l c t m l'
  turn-Guarantees l c t m p g = record {
    shift = ground arith;
    waits = λ k h. ground arith;
    kept = λ u k q ne a w. ground arith;
    queued = λ k h. ground arith;
    pended = λ k h. ground arith;
    entered = λ k h. ground arith;
    busied = λ h. ground arith;
    tried = λ h. ground arith;
    released = λ h. ground arith;
  }

  -- The invariant of each list.
  abbrev pub ListInv : Lane → System A → Type 0
  ListInv l s =
      WaitersInv (roles l) s.pc (busy l s.mem) (lane l s.mem).locked (lane l s.mem).queue
        (woken l s.mem)

  pub moved-ListInv :
      (l : Lane) (s : System A) (t : ℕ) (c : Choice A)
      → Guarded s.mem (s.pc t)
      → ListInv l s
      → ListInv l (moved s t (turn c t s.mem (s.pc t)))
  moved-ListInv l s t c g v =
      Guarantee-WaitersInv (roles l) t _ (turn-Guarantees l c t s.mem (s.pc t) g) v

  pub init-ListInv : (l : Lane) (n : ℕ) (a : A) → ListInv l (init n a)
  init-ListInv l n a = record {
    excl = record { owned = λ t h. ground arith; unique = λ t u h k. ground arith };
    covered = λ t k h. ground arith;
    alert = λ k h. ground arith;
    failing = λ t h. ground arith;
  }
