-- ===== src/Rwlock/Roles.antt =====
-- What a caller of a read-write lock has to do with one of its four lists of waiters.
use wasm_safe_thread.Base.{ℕ, ◌≡◌, Bool, true, false, List, [], arith, ◌==◌, ◌&&◌, ◌||◌, not}
use wasm_safe_thread.Interleave.{Roles}
use wasm_safe_thread.Rwlock.State.{
  Mem, Lane, Pc, WaitPc, sync_read, async_read, sync_write, async_write, wait, unlock, too_many,
  enter, take, leave, wake,
}
use wasm_safe_thread.Rwlock.Read.{write_bit}
use mathlib.Core.Option.{some}

abbrev pub position : Lane → ℕ
position sync_read = 0
position async_read = 1
position sync_write = 2
position async_write = 3

abbrev pub same : Lane → Lane → Bool
same l l' = position l == position l'

pub same_refl : (l : Lane) → same l l ≡ true
same_refl l = ground arith

abbrev pub earlier : Lane → Lane → Bool
earlier sync_read sync_read = false
earlier sync_read _ = true
earlier async_read sync_write = true
earlier async_read async_write = true
earlier sync_write async_write = true
earlier _ _ = false

-- A thread waits for its own token, a task for the continuation that it entered.
abbrev pub ticket : Lane → ℕ → ℕ → ℕ → Bool
ticket sync_read t j k = t == k
ticket async_read t j k = j == k
ticket sync_write t j k = t == k
ticket async_write t j k = j == k

abbrev pub only_if : Bool → List ℕ → List ℕ
only_if true ks = ks
only_if false ks = []

module _ {A : Type 0} where
  -- The lock refuses the callers of a read list while a writer has it, and those of a write list
  -- while anybody has it.
  abbrev pub busy : Lane → Mem A → Bool
  busy sync_read m = write_bit m.data_lock
  busy async_read m = write_bit m.data_lock
  busy sync_write m = not (m.data_lock == 0)
  busy async_write m = not (m.data_lock == 0)

  abbrev pub inside : Lane → Pc A → Bool
  inside l (wait l' WaitPc.attempt) = same l l'
  inside l (wait l' WaitPc.enlist) = same l l'
  inside l (wait l' WaitPc.leave_locked) = same l l'
  inside l (wait l' (WaitPc.leave_waiting _)) = same l l'
  inside l (unlock (take l')) = same l l'
  inside l (unlock (leave l' _)) = same l l'
  inside l (too_many (some l')) = same l l'
  inside l _ = false

  abbrev pub failed : Lane → Pc A → Bool
  failed l (wait l' WaitPc.enlist) = same l l'
  failed l _ = false

  abbrev pub releasing : Lane → Pc A → Bool
  releasing l (unlock (enter l')) = same l l' || earlier l' l
  releasing l (unlock (take l')) = same l l' || earlier l' l
  releasing l (unlock (leave l' _)) = earlier l' l
  releasing l (unlock (wake l' _)) = earlier l' l
  releasing l _ = false

  abbrev pub pending : Lane → Pc A → List ℕ
  pending l (unlock (leave l' ks)) = only_if (same l l') ks
  pending l (unlock (wake l' ks)) = only_if (same l l') ks
  pending l _ = []

  abbrev pub awaits : Lane → ℕ → Pc A → ℕ → Bool
  awaits l t (wait l' (WaitPc.leave_waiting j)) k = same l l' && ticket l t j k
  awaits l t (wait l' (WaitPc.asleep j)) k = same l l' && ticket l t j k
  awaits l t _ k = false

  pub failed-inside : (l : Lane) (p : Pc A) → failed l p ≡ true → inside l p ≡ true
  failed-inside l (wait l' WaitPc.enlist) h = h
  failed-inside l p h = ground arith

  abbrev pub roles : Lane → Roles (Pc A)
  roles l = record {
    inside = inside l;
    failed = failed l;
    releasing = releasing l;
    pending = pending l;
    awaits = awaits l;
    failed_inside = failed-inside l;
  }
