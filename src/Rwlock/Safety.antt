-- ===== src/Rwlock/Safety.antt =====
-- What holds of a read-write lock after any interleaving of its callers.
use wasm_safe_thread.Base.{
  ℕ, ◌+◌, ◌*◌, ◌≤◌, ◌<◌, ◌≡◌, ◌≢◌, refl, subst, inl, inr, Bool, ◌&&◌, true, false, List, Option,
  some, arith, elem, Bool-cases,
}
use wasm_safe_thread.Interleave.{count, one-le-count, no_lost_wakeup}
use wasm_safe_thread.Rwlock.State.{
  Mem, Lane, Pc, Choice, WaitPc, locked_write, lane, wait, seen, loaded, unlock, too_many,
}
use wasm_safe_thread.Rwlock.Read.{lock_spin_read, lock_block_read, lock_async_read}
use wasm_safe_thread.Rwlock.Write.{lock_spin_write, lock_block_write, lock_async_write}
use wasm_safe_thread.Rwlock.Unlock.{did_unlock, drop_read, drop_write}
use wasm_safe_thread.Rwlock.Machine.{System, turn, run, init, run_inv, moved}
use wasm_safe_thread.Rwlock.Exclusion.{reads, writes, failed_assertion, IsFresh, Inv}
use wasm_safe_thread.Rwlock.Invariant.{writer_alone, writer_unique, moved-Inv, init-Inv, run-Inv}
use wasm_safe_thread.Rwlock.Roles.{roles, busy, inside, same_refl, releasing, pending, awaits}
use wasm_safe_thread.Rwlock.Wakeups.{woken, Guarded, ListInv, moved-ListInv, init-ListInv}

module _ {A : Type 0} where
  -- After any interleaving, while a thread owns a write guard no thread owns a read guard.
  writer_excludes_readers :
      (n : ℕ) (a : A) (es : List (ℕ × Choice A)) (t u : ℕ)
      → writes ((run (init n a) es).pc t) ≡ true
      → reads ((run (init n a) es).pc u) ≡ false
  writer_excludes_readers n a es t u = writer_alone (run-Inv n a es) t u

  -- After any interleaving, two threads never own write guards together.
  pub writer_excludes_writers :
      (n : ℕ) (a : A) (es : List (ℕ × Choice A)) (t u : ℕ)
      → writes ((run (init n a) es).pc t) ≡ true
      → writes ((run (init n a) es).pc u) ≡ true
      → t ≡ u
  writer_excludes_writers n a es t u = writer_unique (run-Inv n a es) t u

  -- After any interleaving, while a thread owns a write guard no thread owns a read guard, and the
  -- byte says who owns them. It is the number of read guards plus 128 for a write guard; there
  -- are at most 127 guards, and the byte does not wrap; and the assertions in the drops of the
  -- guards, `r > 0` and `old == LOCKED_WRITE`, have not failed.
  pub byte_counts_guards :
      (n : ℕ) (a : A) (es : List (ℕ × Choice A)) (t u : ℕ)
      → let s = run (init n a) es in
        ((writes (s.pc t) && reads (s.pc u)) ≡ false)
        × (s.mem.data_lock
            ≡ count reads s.threads s.pc + locked_write * count writes s.threads s.pc)
        × (count reads s.threads s.pc + count writes s.threads s.pc < locked_write)
        × (s.mem.data_lock ≤ locked_write)
        × (failed_assertion (s.pc t) ≡ false)
  byte_counts_guards n a es t u =
      let v = run-Inv n a es in
      (
        ground (arith, writer_excludes_readers n a es t u),
        v.tally.sum,
        v.tally.few,
        ground (arith, v.tally),
        v.asserted t,
      )

  fresh_seen : (m : Mem A) (p : Pc A) (x : A) → p ≡ seen x → IsFresh m p → m.inner ≡ x
  fresh_seen m p x e h = subst (IsFresh m) e h

  fresh_loaded :
      (m : Mem A) (p : Pc A) (f : A → A) (x : A) → p ≡ loaded f x → IsFresh m p → m.inner ≡ x
  fresh_loaded m p f x e h = subst (IsFresh m) e h

  -- After any interleaving, what a read guard has read is what the lock still holds: the data do not
  -- change under a reader.
  pub stable_read :
      (n : ℕ) (a : A) (es : List (ℕ × Choice A)) (t : ℕ) (x : A)
      → (run (init n a) es).pc t ≡ seen x
      → (run (init n a) es).mem.inner ≡ x
  stable_read n a es t x e = fresh_seen (run (init n a) es).mem _ x e ((run-Inv n a es).fresh t)

  -- After any interleaving, the write that a write guard's closure `f` is about to do stores `f` of
  -- the current data: no update is lost.
  pub no_write_lost :
      (n : ℕ) (a : A) (es : List (ℕ × Choice A)) (t : ℕ) (f : A → A) (x : A) (c : Choice A)
      → t < n
      → (run (init n a) es).pc t ≡ loaded f x
      → (turn c t (run (init n a) es).mem ((run (init n a) es).pc t)).0.inner
        ≡ f (run (init n a) es).mem.inner
  unfolding turn
  no_write_lost n a es t f x c lt e =
      ground (arith, fresh_loaded (run (init n a) es).mem _ f x e ((run-Inv n a es).fresh t))

  guarded : (s : System A) (t : ℕ) → Inv s → t < s.threads → Guarded s.mem (s.pc t)
  guarded s t v lt = record {
    read_guard = λ h. ground (arith, v.tally, one-le-count reads s.threads s.pc t lt);
    write_guard = λ h. ground (arith, v.tally, one-le-count writes s.threads s.pc t lt);
  }

  record Sound (l : Lane) (s : System A) : Type 0 where
    inv : Inv s
    list : ListInv l s

  keep-Sound :
      (l : Lane) (s : System A) (t : ℕ) (c : Choice A)
      → t < s.threads
      → Sound l s
      → Sound l (moved s t (turn c t s.mem (s.pc t)))
  keep-Sound l s t c lt v = record {
    inv = moved-Inv v.inv t c lt;
    list = moved-ListInv l s t c (guarded s t v.inv lt) v.list;
  }

  run-Sound : (l : Lane) (n : ℕ) (a : A) (es : List (ℕ × Choice A)) → Sound l (run (init n a) es)
  run-Sound l n a es =
      run_inv (Sound l) (keep-Sound l) (init n a) es
        (record { inv = init-Inv n a; list = init-ListInv l n a })

  -- The thread is in `did_unlock_read` or `did_unlock_write`.
  abbrev pub unlocking : Pc A → Bool
  unlocking (unlock _) = true
  unlocking _ = false

  quiet :
      (l : Lane) (p : Pc A)
      → unlocking p ≡ false
      → (releasing l p ≡ false) × ((k : ℕ) → elem k (pending l p) ≡ false)
  quiet l (unlock q) h = cc
  quiet l p h = (refl, λ k. refl)

  -- After any interleaving, while the lock would admit the callers of a list and no thread is in
  -- `did_unlock_read` or `did_unlock_write`, each waiter of the list has been woken: a parked thread
  -- has its unpark token, and an awaiting task has been sent its continuation.
  pub no_ticket_forgotten :
      (l : Lane) (n : ℕ) (a : A) (es : List (ℕ × Choice A)) (t k : ℕ)
      → busy l (run (init n a) es).mem ≡ false
      → ((u : ℕ) → unlocking ((run (init n a) es).pc u) ≡ false)
      → awaits l t ((run (init n a) es).pc t) k ≡ true
      → woken l (run (init n a) es).mem k ≡ true
  no_ticket_forgotten l n a es t k free still a' =
      elim (no_lost_wakeup (roles l) (run-Sound l n a es).list free (λ u. (quiet l _ (still u)).0) t
        k a') [ inl w ↦ w | inr (u, w) ↦ cc ((quiet l _ (still u)).1 k) ]

  abbrev pub panicked : Pc A → Bool
  panicked (too_many _) = true
  panicked _ = false

  turn_panics :
      (c : Choice A) (t : ℕ) (m : Mem A) (p : Pc A)
      → panicked p ≡ false
      → panicked (turn c t m p).1 ≡ true
      → m.data_lock ≡ 127
  unfolding turn lock_block_read lock_async_read lock_block_write lock_async_write lock_spin_read
      lock_spin_write did_unlock drop_read drop_write
  turn_panics c t m (wait l WaitPc.enter) h k = ground arith
  turn_panics c t m p h k = ground arith

  -- After any interleaving, a thread that panics with "Too many readers" does so while exactly 127
  -- read guards are owned.
  pub panic_needs_127_readers :
      (n : ℕ) (a : A) (es : List (ℕ × Choice A)) (t : ℕ) (c : Choice A)
      → panicked ((run (init n a) es).pc t) ≡ false
      → panicked (turn c t (run (init n a) es).mem ((run (init n a) es).pc t)).1 ≡ true
      → count reads (run (init n a) es).threads (run (init n a) es).pc ≡ 127
  panic_needs_127_readers n a es t c h k =
      let v = run-Inv n a es in
      ground (arith, v.tally, turn_panics c t (run (init n a) es).mem _ h k)

  stays_panicked :
      (t : ℕ) (stuck : Option Lane) (s : System A) (es : List (ℕ × Choice A))
      → s.pc t ≡ too_many stuck
      → (run s es).pc t ≡ too_many stuck
  unfolding turn
  stays_panicked t stuck s es e =
      run_inv (λ s. s.pc t ≡ too_many stuck) (λ s u c lt h. ground arith) s es e

  -- A panic in the closure of a list's spinlock is never undone: whatever happens after it, the
  -- list stays locked, and no other thread is ever inside it again, to enter itself or to take it.
  pub panic_locks_list_forever :
      (l : Lane) (n : ℕ) (a : A) (es fs : List (ℕ × Choice A)) (t u : ℕ)
      → (run (init n a) es).pc t ≡ too_many (some l)
      → t ≢ u
      → ((lane l (run (run (init n a) es) fs).mem).locked ≡ true)
        × (inside l ((run (run (init n a) es) fs).pc u) ≡ false)
  panic_locks_list_forever l n a es fs t u e ne =
      let s = run (init n a) es in
      let v = run_inv (Sound l) (keep-Sound l) s fs (run-Sound l n a es) in
      let stuck : inside l ((run s fs).pc t) ≡ true =
        rw (stays_panicked t (some l) s fs e) (same_refl l) in
      (v.list.excl.owned t stuck, outside (v.list.excl.unique t u stuck))
    where
      outside :
          (inside l ((run (run (init n a) es) fs).pc u) ≡ true → t ≡ u)
          → inside l ((run (run (init n a) es) fs).pc u) ≡ false
      outside h = elim (Bool-cases (inside l ((run (run (init n a) es) fs).pc u))) [
        | inl i ↦ absurd (ne (h i))
        | inr o ↦ o
      ]
