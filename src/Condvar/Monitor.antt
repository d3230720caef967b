-- ===== src/Condvar/Monitor.antt =====
-- `wait_block_while`, `wait_spin_while`, `wait_async_while`, `wait_sync_while` and their timed variants
-- of src/condvar/*.rs, in any interleaving of threads that lock the mutex, change its value, wait for
-- conditions and notify.
use wasm_safe_thread.Base.{ℕ, Bool, true, false, List, [], ◌∷◌, if◌then◌else◌, ◌&&◌, update}
use wasm_safe_thread.Condvar.State.{How, spin, block, async, Cond, new}
use wasm_safe_thread.Condvar.Notify.{NotifyPc, notify, notify_one, notify_all}
use wasm_safe_thread.Condvar.Notify
use wasm_safe_thread.Condvar.Wait.{WaitPc, Event, wait, register}
use wasm_safe_thread.Condvar.Wait

-- `testing` has the guard and is at the head of the loop, before its condition `c`; `returned` has the
-- guard that the loop returned, with whether it timed out. The others are as in `Machine`.
pub data Pc (C : Type 0) : Type 0 where
  idle locking owner : Pc C
  testing : How → (timed : Bool) → (c : C) → Pc C
  waiting : How → (timed : Bool) → (c : C) → WaitPc → Pc C
  returned : (timed_out : Bool) → (c : C) → Pc C
  notifying : (held : Bool) → NotifyPc → Pc C

-- The loops: with the wait that is in their body, and whether they return when it timed out.
module _ {C : Type 0} (c : C) where
  abbrev pub wait_block_while : Pc C
  wait_block_while = testing block false c

  abbrev pub wait_block_timeout_while : Pc C
  wait_block_timeout_while = testing block true c

  abbrev pub wait_spin_while : Pc C
  wait_spin_while = testing spin false c

  abbrev pub wait_spin_timeout_while : Pc C
  wait_spin_timeout_while = testing spin true c

  abbrev pub wait_async_while : Pc C
  wait_async_while = testing async false c

  abbrev pub wait_async_timeout_while : Pc C
  wait_async_timeout_while = testing async true c

  abbrev pub wait_sync_while : (wait_supported : Bool) → Pc C
  wait_sync_while wait_supported = if wait_supported then wait_block_while else wait_spin_while

  abbrev pub wait_sync_timeout_while : (wait_supported : Bool) → Pc C
  wait_sync_timeout_while wait_supported =
      if wait_supported then wait_block_timeout_while else wait_spin_timeout_while

-- The next call of an idle thread or of the owner, or what happens to a waiter. `write` changes the
-- value through the guard; `wait_while` is a loop with a condition, with a deadline or without.
pub data Choice (C D : Type 0) : Type 0 where
  event : Event → Choice C D
  lock unlock : Choice C D
  write : D → Choice C D
  wait_while : How → (timed : Bool) → C → Choice C D
  wait_sync : (wait_supported timed : Bool) → C → Choice C D
  start_one start_all : Choice C D

-- The condition variable, with the mutex's flag, and the mutex's value.
pub record Shared (D : Type 0) : Type 0 where
  pub cond : Cond
  pub value : D

-- A condition `c` is a closure, which `eval c` runs: it may change the value.
module _ {C D : Type 0} (eval : C → D → Bool × D) where
  abbrev back : Bool → Pc C
  back true = owner
  back false = idle

  abbrev set_cond : Cond → Shared D → Shared D
  set_cond c s = record s { cond = c }

  abbrev set_mutex : Bool → Shared D → Shared D
  set_mutex b s = set_cond (record (s.cond) { mutex = b }) s

  abbrev start_while : How → Bool → C → Pc C
  start_while block false c = wait_block_while c
  start_while block true c = wait_block_timeout_while c
  start_while spin false c = wait_spin_while c
  start_while spin true c = wait_spin_timeout_while c
  start_while async false c = wait_async_while c
  start_while async true c = wait_async_timeout_while c

  abbrev pub begin : Bool → Choice C D → Shared D → Shared D × Pc C
  begin held start_one s = (s, notifying held notify_one)
  begin held start_all s = (s, notifying held notify_all)
  begin false lock s = (s, locking)
  begin true unlock s = (set_mutex false s, idle)
  begin true (write d) s = (record s { value = d }, owner)
  begin true (wait_while h timed c) s = (s, start_while h timed c)
  begin true (wait_sync supported false c) s = (s, wait_sync_while c supported)
  begin true (wait_sync supported true c) s = (s, wait_sync_timeout_while c supported)
  begin held _ s = (s, back held)

  -- `while condition(&mut guard)`.
  abbrev pub test : How → Bool → C → Shared D → Shared D × Pc C
  test h timed c s =
      let r = eval c s.value in
      (record s { value = r.1 }, if r.0 then waiting h timed c register else returned false c)

  -- `if result.timed_out()`, in the timed loops; the others go on.
  abbrev pub after_wait : How → Bool → C → Shared D → Cond × WaitPc → Shared D × Pc C
  after_wait h timed c s (k, Wait.done timed_out) =
      (set_cond k s, if timed && timed_out then returned true c else testing h timed c)
  after_wait h timed c s (k, p) = (set_cond k s, waiting h timed c p)

  abbrev pub after_notify : Bool → Shared D → Cond × NotifyPc → Shared D × Pc C
  after_notify held s (k, Notify.done) = (set_cond k s, back held)
  after_notify held s (k, p) = (set_cond k s, notifying held p)

  abbrev pub the_event : Choice C D → Event
  the_event (event e) = e
  the_event _ = Event.go

  unfoldable pub turn : Choice C D → ℕ → Shared D → Pc C → Shared D × Pc C
  turn x t s idle = begin false x s
  turn x t s owner = begin true x s
  turn x t s locking = if s.cond.mutex then (s, locking) else (set_mutex true s, owner)
  turn x t s (testing h timed c) = test h timed c s
  turn x t s (waiting h timed c p) = after_wait h timed c s (wait h timed (the_event x) t s.cond p)
  turn x t s (returned timed_out c) = (s, owner)
  turn x t s (notifying held p) = after_notify held s (notify s.cond p)

pub record System (C D : Type 0) : Type 0 where
  pub shared : Shared D
  pub pc : ℕ → Pc C

module _ {C D : Type 0} (eval : C → D → Bool × D) where
  unfoldable pub step : System C D → ℕ × Choice C D → System C D
  step s (t, x) =
      let r = turn eval x t s.shared (s.pc t) in record { shared = r.0; pc = update s.pc t r.1 }

  unfoldable pub run : System C D → List (ℕ × Choice C D) → System C D
  run s [] = s
  run s (e ∷ es) = run (step s e) es

abbrev pub init : {C D : Type 0} → D → System C D
init d = record { shared = record { cond = new; value = d }; pc = λ _. idle }
