-- ===== src/Rwlock/Refinement.antt =====
-- The read-write lock is one: every interleaving of its callers, with their lists, parks and
-- continuations, is a sequence of steps of readers that share the lock and of writers that do not.
use wasm_safe_thread.Base.{
  ℕ, ◌/◌, ◌%◌, ◌≡◌, refl, inl, inr, Bool, true, false, List, [], ◌∷◌, Option, none, some, arith,
  ltb, Bool-cases,
}
use wasm_safe_thread.Interleave.{count, one-le-count}
use wasm_safe_thread.Interleave.Lock.{data_after}
use wasm_safe_thread.Interleave.SharedLock.{View, Step, rest, Follows, unowned, Turned, Turned-Step}
use wasm_safe_thread.Rwlock.State.{Mem, Pc, Choice, WaitPc, idle, loaded, wait, locked_write}
use wasm_safe_thread.Rwlock.Read.{lock_spin_read, lock_block_read, lock_async_read}
use wasm_safe_thread.Rwlock.Write.{lock_spin_write, lock_block_write, lock_async_write}
use wasm_safe_thread.Rwlock.Unlock.{did_unlock, drop_read, drop_write}
use wasm_safe_thread.Rwlock.Machine.{System, turn, run, step, init, moved}
use wasm_safe_thread.Rwlock.Exclusion.{reads, writes, IsFresh, Inv}
use wasm_safe_thread.Rwlock.Invariant.{moved-Inv, init-Inv}

module _ {A : Type 0} where
  -- What the machine's callers have of the lock.
  abbrev pub view : System A → View A
  view s = record {
    reading = λ t. reads (s.pc t);
    writing = λ t. writes (s.pc t);
    value = s.mem.inner;
  }

  abbrev written : Pc A → Option (A → A)
  written (loaded f a) = some f
  written _ = none

  -- What a turn needs of the byte.
  record Needs (m : Mem A) (p p' : Pc A) : Type 0 where
    to_read : reads p ≡ false → reads p' ≡ true → m.data_lock / locked_write % 2 ≡ 0
    to_write : writes p ≡ false → writes p' ≡ true → m.data_lock ≡ 0
    downgrade : writes p ≡ true → writes p' ≡ false → reads p' ≡ false
    upgrade : reads p ≡ true → reads p' ≡ false → writes p' ≡ false

  turn-Needs : (c : Choice A) (t : ℕ) (m : Mem A) (p : Pc A) → Needs m p (turn c t m p).1
  unfolding turn lock_block_read lock_async_read lock_block_write lock_async_write lock_spin_read
      lock_spin_write did_unlock drop_read drop_write
  turn-Needs c t m (wait l WaitPc.enter) = ground arith
  turn-Needs c t m p = ground arith

  turn_data :
      (c : Choice A) (t : ℕ) (m : Mem A) (p : Pc A)
      → IsFresh m p
      → (turn c t m p).0.inner ≡ data_after (writes p) (writes (turn c t m p).1) (written p) m.inner
  unfolding turn lock_block_read lock_async_read lock_block_write lock_async_write lock_spin_read
      lock_spin_write did_unlock drop_read drop_write
  turn_data c t m (wait l WaitPc.enter) h = ground arith
  turn_data c t m (loaded f a) h = ground arith
  turn_data c t m p h = ground arith

  reads_apart : (p : Pc A) → reads p ≡ true → writes p ≡ true → ⊥
  reads_apart p r w = ground arith

  -- A thread that is not there owns nothing, and a tally of none is nobody.
  nobody :
      (holds : Pc A → Bool) (s : System A) (u : ℕ)
      → Inv s
      → holds idle ≡ false
      → count holds s.threads s.pc ≡ 0
      → holds (s.pc u) ≡ false
  nobody holds s u v e none_hold = elim (Bool-cases (ltb u s.threads)) [
    | inl real ↦ ground (arith, one-le-count holds s.threads s.pc u, Bool-cases (holds (s.pc u)))
    | inr absent ↦ ground (arith, v.absent u)
  ]

  moved-Turned :
      (s : System A) (t : ℕ) (c : Choice A)
      → Inv s
      → let p = s.pc t in
        let r = turn c t s.mem p in
        Turned
          (view s)
          (view (moved s t r))
          t
          (reads p)
          (reads r.1)
          (writes p)
          (writes r.1)
          (written p)
  moved-Turned s t c v =
      let p = s.pc t in
      let n = turn-Needs c t s.mem p in
      record {
        was = (refl, refl);
        reads_now = λ u. ground arith;
        writes_now = λ u. ground arith;
        apart = reads_apart p;
        apart_now = reads_apart (turn c t s.mem p).1;
        downgrade = n.downgrade;
        upgrade = n.upgrade;
        free_to_read = λ b b' u. nobody writes s u v refl (ground (arith, v.tally, n.to_read b b'));
        free_to_write = λ w w'. (
          λ u. nobody reads s u v refl (ground (arith, v.tally, n.to_write w w')),
          λ u. nobody writes s u v refl (ground (arith, v.tally, n.to_write w w')),
        );
        stored = turn_data c t s.mem p (v.fresh t);
      }

  record Stepped (t : ℕ) (s s' : System A) : Type 0 where
    inv : Inv s'
    taken : Step t (view s) (view s')

  step-Stepped : (s : System A) (t : ℕ) (c : Choice A) → Inv s → Stepped t s (step s (t, c))
  unfolding step
  step-Stepped s t c v = elim (Bool-cases (ltb t s.threads)) [
    | inl real ↦ rw real record {
      inv = moved-Inv v t c (ground arith);
      taken = Turned-Step _ _ t _ _ _ _ (written (s.pc t)) (moved-Turned s t c v);
    }
    | inr absent ↦ rw absent record { inv = v; taken = rest (λ u. refl) (λ u. refl) refl }
  ]

  abbrev pub threads_of : List (ℕ × Choice A) → List ℕ
  threads_of [] = []
  threads_of (e ∷ es) = e.0 ∷ threads_of es

  run-Follows :
      (s : System A) (es : List (ℕ × Choice A))
      → Inv s
      → Follows (threads_of es) (view s) (view (run s es))
  unfolding run
  run-Follows s [] v = (λ u. refl, λ u. refl, refl)
  run-Follows s ((t, c) ∷ es) v =
      let k = step-Stepped s t c v in
      (view (step s (t, c)), k.taken, run-Follows (step s (t, c)) es k.inv)

  -- The read-write lock refines a shared lock. Each turn of an interleaving, whatever its callers wait
  -- in, is one step of the thread that takes it, or none: it locks for reading while nobody writes,
  -- locks for writing while nobody reads or writes, gives up what it has, or changes the data while
  -- it has the lock for writing; and the data change in no other way.
  pub rwlock_refines_shared_lock :
      (n : ℕ) (a : A) (es : List (ℕ × Choice A))
      → Follows (threads_of es) (unowned a) (view (run (init n a) es))
  rwlock_refines_shared_lock n a es = run-Follows (init n a) es (init-Inv n a)
