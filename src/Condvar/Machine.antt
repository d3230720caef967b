-- ===== src/Condvar/Machine.antt =====
-- Any number of threads that lock the mutex, wait on the condition variable, and notify it, in any
-- interleaving.
use wasm_safe_thread.Base.{ℕ, Bool, true, false, List, [], ◌∷◌, if◌then◌else◌, update}
use wasm_safe_thread.Condvar.State.{How, Cond, new}
use wasm_safe_thread.Condvar.Notify.{NotifyPc, notify, notify_one, notify_all, done}
use wasm_safe_thread.Condvar.Wait.{WaitPc, Event, wait, register}
use wasm_safe_thread.Condvar.Wait

-- `locking` waits for the mutex, `owner` has its guard, and a notifier may have it (`held`).
pub data Pc : Type 0 where
  idle locking owner : Pc
  waiting : How → (timed : Bool) → WaitPc → Pc
  notifying : (held : Bool) → NotifyPc → Pc

-- The next call of an idle thread or of the owner, or what happens to a waiter.
pub data Choice : Type 0 where
  event : Event → Choice
  lock unlock : Choice
  start_wait : How → (timed : Bool) → Choice
  start_one start_all : Choice

abbrev pub back : Bool → Pc
back true = owner
back false = idle

abbrev begin : Bool → Choice → Cond → Cond × Pc
begin held start_one c = (c, notifying held notify_one)
begin held start_all c = (c, notifying held notify_all)
begin false lock c = (c, locking)
begin true unlock c = (record c { mutex = false }, idle)
begin true (start_wait h timed) c = (c, waiting h timed register)
begin held _ c = (c, back held)

abbrev pub after_wait : How → Bool → Cond × WaitPc → Cond × Pc
after_wait h timed (c, Wait.done b) = (c, owner)
after_wait h timed (c, p) = (c, waiting h timed p)

abbrev pub after_notify : Bool → Cond × NotifyPc → Cond × Pc
after_notify held (c, done) = (c, back held)
after_notify held (c, p) = (c, notifying held p)

abbrev pub the_event : Choice → Event
the_event (event e) = e
the_event _ = Event.go

unfoldable pub turn : Choice → ℕ → Cond → Pc → Cond × Pc
turn x t c idle = begin false x c
turn x t c owner = begin true x c
turn x t c locking = if c.mutex then (c, locking) else (record c { mutex = true }, owner)
turn x t c (waiting h timed p) = after_wait h timed (wait h timed (the_event x) t c p)
turn x t c (notifying held p) = after_notify held (notify c p)

pub record System : Type 0 where
  pub cond : Cond
  pub pc : ℕ → Pc

unfoldable pub step : System → ℕ × Choice → System
step s (t, x) = let r = turn x t s.cond (s.pc t) in record { cond = r.0; pc = update s.pc t r.1 }

abbrev pub init : System
init = record { cond = new; pc = λ _. idle }

unfoldable pub run : System → List (ℕ × Choice) → System
run s [] = s
run s (e ∷ es) = run (step s e) es

-- What every turn keeps, every schedule keeps.
pub run_inv :
    (P : System → Type 0)
    → ((s : System) (e : ℕ × Choice) → P s → P (step s e))
    → (s : System) (es : List (ℕ × Choice)) → P s
    → P (run s es)
unfolding run
run_inv P keep s [] v = v
run_inv P keep s (e ∷ es) v = run_inv P keep (step s e) es (keep s e v)
