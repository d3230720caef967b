-- ===== src/Rwlock/Tests.antt =====
-- The theorems on a read-write lock, on schedules of two threads and of 128.
use wasm_safe_thread.Base.{
  ℕ, zero, suc, ◌≡◌, ◌<◌, ◌≤◌, ◌+◌, ◌*◌, ◌&&◌, refl, true, false, List, [], ◌∷◌, ◌++◌, arith,
}
use wasm_safe_thread.Interleave.{count}
use wasm_safe_thread.Interleave.SharedLock.{Follows, unowned}
use wasm_safe_thread.Rwlock.Refinement.{view, threads_of, rwlock_refines_shared_lock}
use wasm_safe_thread.Rwlock.State.{
  Choice, Call, sync_read, locked_write, lane, go, drop, read, call, write,
}
use wasm_safe_thread.Rwlock.Read.{try_lock_read, lock_block_read}
use wasm_safe_thread.Rwlock.Write.{try_lock_write}
use wasm_safe_thread.Rwlock.Unlock.{did_unlock, drop_write}
use wasm_safe_thread.Rwlock.Machine.{turn, run, init, step, begin, with_read, with_write}
use wasm_safe_thread.Rwlock.Exclusion.{reads, writes, failed_assertion}
use wasm_safe_thread.Rwlock.Roles.{inside}
use wasm_safe_thread.Rwlock.Wakeups.{woken}
use wasm_safe_thread.Rwlock.Safety.{
  byte_counts_guards, unlocking, no_ticket_forgotten, panic_locks_list_forever,
}

abbrev turns : ℕ → List (Choice ℕ) → List (ℕ × Choice ℕ)
turns t [] = []
turns t (c ∷ cs) = (t, c) ∷ turns t cs

-- Thread 0 owns a write guard, and thread 1 parks in `lock_block_read`.
abbrev writer_first : List (ℕ × Choice ℕ)
writer_first =
    turns 0 (call Call.try_lock_write true ∷ [])
    ++ turns 1 (call Call.lock_block_read true ∷ go ∷ go ∷ go ∷ go ∷ [])

-- Two readers.
abbrev two_read : List (ℕ × Choice ℕ)
two_read =
    turns 0 (call Call.try_lock_read true ∷ read ∷ [])
    ++ turns 1 (call Call.try_lock_read true ∷ [])

-- As a shared lock sees it, two threads lock it for reading, and one of them reads in between.
rwlock_refines_shared_lock_example :
    Follows (threads_of two_read) (unowned 5) (view (run (init 2 5) two_read))
rwlock_refines_shared_lock_example = rwlock_refines_shared_lock 2 5 two_read

byte_counts_guards_example :
    let s = run (init 2 5) (two_read ++ turns 1 (drop ∷ [])) in
    ((writes (s.pc 1) && reads (s.pc 0)) ≡ false)
    × (s.mem.data_lock ≡ count reads s.threads s.pc + locked_write * count writes s.threads s.pc)
    × (count reads s.threads s.pc + count writes s.threads s.pc < locked_write)
    × (s.mem.data_lock ≤ locked_write)
    × (failed_assertion (s.pc 1) ≡ false)
byte_counts_guards_example = byte_counts_guards 2 5 (two_read ++ turns 1 (drop ∷ [])) 1 0

two_read-run : (run (init 2 5) two_read).mem.data_lock ≡ 2
unfolding run step turn begin with_read try_lock_read try_lock_write
two_read-run = refl

abbrev one_writes : List (ℕ × Choice ℕ)
one_writes = turns 0 (call Call.try_lock_write true ∷ write (λ x. x + 2) ∷ [])

abbrev eighteen : List (Choice ℕ)
eighteen =
    go ∷ go ∷ go ∷ go ∷ go ∷ go ∷ go ∷ go ∷ go ∷ go ∷ go ∷ go ∷ go ∷ go ∷ go ∷ go ∷ go ∷ go ∷ []

-- Thread 0 then drops its guard, and wakes thread 1.
abbrev writer_done : List (ℕ × Choice ℕ)
writer_done = writer_first ++ turns 0 (drop ∷ eighteen)

nobody_unlocks : (u : ℕ) → unlocking ((run (init 2 5) writer_done).pc u) ≡ false
unfolding run step turn begin lock_block_read with_write drop_write did_unlock try_lock_read
    try_lock_write
nobody_unlocks u = ground arith

no_ticket_forgotten_example : woken sync_read (run (init 2 5) writer_done).mem 1 ≡ true
unfolding run step turn begin lock_block_read with_write drop_write did_unlock try_lock_read
    try_lock_write
no_ticket_forgotten_example =
    no_ticket_forgotten sync_read 2 5 writer_done 1 1 refl nobody_unlocks refl

-- Threads 0 to `n - 1` own read guards.
abbrev readers : ℕ → List (ℕ × Choice ℕ)
readers zero = []
readers (suc n) = (n, call Call.try_lock_read true) ∷ readers n

-- Thread 127 is inside its list's spinlock, before `try_lock_read`.
abbrev full : List (ℕ × Choice ℕ)
full = readers 127 ++ turns 127 (call Call.lock_block_read true ∷ go ∷ [])

-- It panics; another thread then tries to enter the list.
panic_locks_list_forever_example :
    let s =
      run
        (run (init 129 5) (full ++ turns 127 (go ∷ [])))
        (turns 128 (call Call.lock_block_read true ∷ go ∷ go ∷ [])) in
    ((lane sync_read s.mem).locked ≡ true) × (inside sync_read (s.pc 128) ≡ false)
unfolding run step turn begin lock_block_read try_lock_read try_lock_write
panic_locks_list_forever_example =
    panic_locks_list_forever sync_read 129 5 (full ++ turns 127 (go ∷ []))
      (turns 128 (call Call.lock_block_read true ∷ go ∷ go ∷ [])) 127 128 refl (λ e. omega arith)
