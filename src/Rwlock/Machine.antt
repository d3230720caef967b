-- ===== src/Rwlock/Machine.antt =====
-- `threads` callers of one read-write lock, interleaved in any order. A schedule is a list of turns,
-- each a thread and what the environment decides for it; other threads do not exist.
use wasm_safe_thread.Base.{
  ℕ, Bool, List, [], ◌∷◌, none, if◌then◌else◌, ltb, update, arith, ◌<◌, inl, inr, Bool-cases,
}
use wasm_safe_thread.Rwlock.State.{
  Mem, Lane, Pc, Choice, Call, WaitPc, new, sync_read, async_read, sync_write, async_write, idle,
  wait, spin_read, spin_write, reading, writing, seen, loaded, unlock, too_many, assert_failed,
  drop, read, write, call,
}
use wasm_safe_thread.Rwlock.Read.{try_lock_read, lock_spin_read, lock_block_read, lock_async_read}
use wasm_safe_thread.Rwlock.Write.{
  try_lock_write, lock_spin_write, lock_block_write, lock_async_write,
}
use wasm_safe_thread.Rwlock.Unlock.{drop_read, drop_write, did_unlock}

module _ {A : Type 0} where
  -- The first access of each call. `lock_sync_read` and `lock_sync_write` block where the platform
  -- can, and spin elsewhere.
  unfoldable pub begin : Call → Bool → Mem A → Mem A × Pc A
  begin Call.try_lock_read w m = try_lock_read none m reading idle
  begin Call.lock_spin_read w m = (m, spin_read)
  begin Call.lock_block_read w m = (m, wait sync_read WaitPc.enter)
  begin Call.lock_async_read w m = (m, wait async_read WaitPc.enter)
  begin Call.lock_sync_read w m = (m, if w then wait sync_read WaitPc.enter else spin_read)
  begin Call.try_lock_write w m = try_lock_write m writing idle
  begin Call.lock_spin_write w m = (m, spin_write)
  begin Call.lock_block_write w m = (m, wait sync_write WaitPc.enter)
  begin Call.lock_async_write w m = (m, wait async_write WaitPc.enter)
  begin Call.lock_sync_write w m = (m, if w then wait sync_write WaitPc.enter else spin_write)

  abbrev from_idle : Choice A → Mem A → Mem A × Pc A
  from_idle (call c w) m = begin c w m
  from_idle _ m = (m, idle)

  -- A read guard is dropped, or reads the data.
  unfoldable pub with_read : Choice A → Mem A → Mem A × Pc A
  with_read drop m = drop_read m
  with_read read m = (m, seen m.inner)
  with_read _ m = (m, reading)

  -- A write guard is dropped, or reads the data and writes them back at its next turn.
  unfoldable pub with_write : Choice A → Mem A → Mem A × Pc A
  with_write drop m = drop_write m
  with_write (write f) m = (m, loaded f m.inner)
  with_write _ m = (m, writing)

  abbrev pub waiting : Choice A → ℕ → Mem A → Lane → WaitPc → Mem A × Pc A
  waiting c t m sync_read p = lock_block_read c t m p
  waiting c t m async_read p = lock_async_read m p
  waiting c t m sync_write p = lock_block_write c t m p
  waiting c t m async_write p = lock_async_write m p

  unfoldable pub turn : Choice A → ℕ → Mem A → Pc A → Mem A × Pc A
  unfolding begin with_read with_write
  turn c t m idle = from_idle c m
  turn c t m (wait l p) = waiting c t m l p
  turn c t m spin_read = lock_spin_read m
  turn c t m spin_write = lock_spin_write m
  turn c t m reading = with_read c m
  turn c t m writing = with_write c m
  turn c t m (seen a) = (m, reading)
  turn c t m (loaded f a) = (record m { inner = f a }, writing)
  turn c t m (unlock p) = did_unlock m p
  turn c t m (too_many stuck) = (m, too_many stuck)
  turn c t m assert_failed = (m, assert_failed)

pub record System (A : Type 0) : Type 0 where
  pub threads : ℕ
  pub mem : Mem A
  pub pc : ℕ → Pc A

module _ {A : Type 0} where
  abbrev pub moved : System A → ℕ → Mem A × Pc A → System A
  moved s t r = record s { mem = r.0; pc = update s.pc t r.1 }

  unfoldable pub step : System A → ℕ × Choice A → System A
  step s (t, c) = if ltb t s.threads then moved s t (turn c t s.mem (s.pc t)) else s

  abbrev pub init : ℕ → A → System A
  init threads value = record { threads = threads; mem = new value; pc = λ _. idle }

  unfoldable pub run : System A → List (ℕ × Choice A) → System A
  run s [] = s
  run s (e ∷ es) = run (step s e) es

  -- What every turn of an existing thread keeps, every schedule keeps.
  pub run_inv :
      (P : System A → Type 0)
      → ((s : System A) (t : ℕ) (c : Choice A)
          → t < s.threads
          → P s
          → P (moved s t (turn c t s.mem (s.pc t))))
      → (s : System A) (es : List (ℕ × Choice A)) → P s
      → P (run s es)
  unfolding run step
  run_inv P keep s [] v = v
  run_inv P keep s ((t, c) ∷ es) v = elim (Bool-cases (ltb t s.threads)) [
    | inl real ↦
        rw real
          (run_inv P keep (moved s t (turn c t s.mem (s.pc t))) es (keep s t c (ground arith) v))
    | inr unreal ↦ rw unreal (run_inv P keep s es v)
  ]
