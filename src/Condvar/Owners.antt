-- ===== src/Condvar/Owners.antt =====
-- Who owns the guard of the mutex during a wait and a notification.
use wasm_safe_thread.Base.{ℕ, ◌≡◌, Bool, true, false, arith}
use wasm_safe_thread.Interleave.{Shift}
use wasm_safe_thread.Condvar.State.{How, Cond}
use wasm_safe_thread.Condvar.Notify.{NotifyPc, notify}
use wasm_safe_thread.Condvar.Wait.{WaitPc, Event, register, release, done, wait}

-- A waiter has the guard until it drops it, and again when it is done.
abbrev pub owns : WaitPc → Bool
owns register = true
owns (release _) = true
owns (done _) = true
owns _ = false

pub notify_mutex : (c : Cond) (p : NotifyPc) → (notify c p).0.mutex ≡ c.mutex
unfolding notify
notify_mutex c p = ground arith

pub wait-Shift :
    (h : How) (timed : Bool) (e : Event) (t : ℕ) (c : Cond) (p : WaitPc)
    → Shift c.mutex (owns p) (wait h timed e t c p).0.mutex (owns (wait h timed e t c p).1)
unfolding wait
wait-Shift h timed e t c p = ground arith
