-- ===== src/Rwlock/Exclusion.antt =====
-- Who owns the guards of a read-write lock: the byte counts the read guards, or marks the write
-- guard.
use wasm_safe_thread.Base.{ℕ, ◌+◌, ◌*◌, ◌≤◌, ◌<◌, ◌≡◌, ◌⊎◌, Bool, true, false, arith}
use wasm_safe_thread.Interleave.{one, count}
use wasm_safe_thread.Rwlock.State.{
  Mem, Lane, Pc, Choice, WaitPc, locked_write, sync_read, async_read, sync_write, async_write, idle,
  wait, reading, writing, seen, loaded, assert_failed,
}
use wasm_safe_thread.Rwlock.Read.{lock_spin_read, lock_block_read, lock_async_read}
use wasm_safe_thread.Rwlock.Write.{lock_spin_write, lock_block_write, lock_async_write}
use wasm_safe_thread.Rwlock.Unlock.{did_unlock, drop_read, drop_write}
use wasm_safe_thread.Rwlock.Machine.{System, turn}

module _ {A : Type 0} where
  -- The thread owns a read guard.
  abbrev pub reads : Pc A → Bool
  reads (wait sync_read WaitPc.leave_locked) = true
  reads (wait async_read WaitPc.leave_locked) = true
  reads reading = true
  reads (seen _) = true
  reads _ = false

  -- The thread owns a write guard.
  abbrev pub writes : Pc A → Bool
  writes (wait sync_write WaitPc.leave_locked) = true
  writes (wait async_write WaitPc.leave_locked) = true
  writes writing = true
  writes (loaded _ _) = true
  writes _ = false

  abbrev pub failed_assertion : Pc A → Bool
  failed_assertion assert_failed = true
  failed_assertion _ = false

-- The byte, with `r` read guards and `w` write guards.
pub record Tally (data_lock r w : ℕ) : Type 0 where
  pub sum : data_lock ≡ r + locked_write * w
  pub few : r + w < locked_write
  pub apart : (w ≡ 0) ⊎ ((w ≡ 1) × (r ≡ 0))

module _ {A : Type 0} (r w r' w' : ℕ) where
  -- How a turn changes the tally.
  abbrev pub Tallies : Mem A → Pc A → Mem A × Pc A → Type 0
  Tallies m p res =
      Tally m.data_lock r w
      → one (reads p) ≤ r
      → one (writes p) ≤ w
      → r' + one (reads p) ≡ r + one (reads res.1)
      → w' + one (writes p) ≡ w + one (writes res.1)
      → Tally res.0.data_lock r' w'

  wait-Tally :
      (c : Choice A) (t : ℕ) (m : Mem A) (l : Lane) (p : WaitPc)
      → Tallies m (wait l p) (turn c t m (wait l p))
  unfolding turn lock_block_read lock_async_read lock_block_write lock_async_write
  wait-Tally c t m sync_read WaitPc.enter v a b d e = ground arith
  wait-Tally c t m l p v a b d e = ground arith

  pub turn-Tally : (c : Choice A) (t : ℕ) (m : Mem A) (p : Pc A) → Tallies m p (turn c t m p)
  unfolding turn lock_spin_read lock_spin_write did_unlock drop_read drop_write
  turn-Tally c t m (wait l p) v a b d e = wait-Tally c t m l p v a b d e
  turn-Tally c t m p v a b d e = ground arith

module _ {A : Type 0} where
  -- What a guard has read is what the lock holds.
  abbrev pub IsFresh : Mem A → Pc A → Type 0
  IsFresh m (seen a) = m.inner ≡ a
  IsFresh m (loaded f a) = m.inner ≡ a
  IsFresh m _ = Unit {0}

  pub record Inv (s : System A) : Type 0 where
    pub tally : Tally s.mem.data_lock (count reads s.threads s.pc) (count writes s.threads s.pc)
    pub absent : (t : ℕ) → s.threads ≤ t → s.pc t ≡ idle
    pub asserted : (t : ℕ) → failed_assertion (s.pc t) ≡ false
    pub fresh : (t : ℕ) → IsFresh s.mem (s.pc t)

  pub turn-asserted :
      (c : Choice A) (t : ℕ) (m : Mem A) (p : Pc A) {r w : ℕ}
      → Tally m.data_lock r w
      → one (reads p) ≤ r
      → one (writes p) ≤ w
      → failed_assertion p ≡ false
      → failed_assertion (turn c t m p).1 ≡ false
  unfolding turn lock_block_read lock_async_read lock_block_write lock_async_write lock_spin_read
      lock_spin_write did_unlock drop_read drop_write
  turn-asserted c t m (wait l WaitPc.enter) v a b h = ground arith
  turn-asserted c t m p v a b h = ground arith

  pub turn-inner :
      (c : Choice A) (t : ℕ) (m : Mem A) (p : Pc A)
      → writes p ≡ false
      → (turn c t m p).0.inner ≡ m.inner
  unfolding turn lock_block_read lock_async_read lock_block_write lock_async_write lock_spin_read
      lock_spin_write did_unlock drop_read drop_write
  turn-inner c t m (wait l WaitPc.enter) h = ground arith
  turn-inner c t m p h = ground arith

  pub turn-IsFresh :
      (c : Choice A) (t : ℕ) (m : Mem A) (p : Pc A)
      → IsFresh m p
      → IsFresh (turn c t m p).0 (turn c t m p).1
  unfolding turn lock_block_read lock_async_read lock_block_write lock_async_write lock_spin_read
      lock_spin_write did_unlock drop_read drop_write
  turn-IsFresh c t m (wait l WaitPc.enter) h = ground arith
  turn-IsFresh c t m p h = ground arith
