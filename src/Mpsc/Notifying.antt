-- ===== src/Mpsc/Notifying.antt =====
-- The threads that are on their way to wake the receiver.
use wasm_safe_thread.Base.{ℕ, ◌≡◌, Bool, true, false, arith, elem}
use wasm_safe_thread.Condvar.State.{How}
use wasm_safe_thread.Mpsc.State.{Pc, leave, notify_sent, notify_dropped, closing}
use wasm_safe_thread.Mpsc.Wakeups.{taken, coming}

module _ {A : Type 0} where
  -- The thread is a sender after its push, or in a notification.
  abbrev pub is_notifying : Pc A → Bool
  is_notifying leave = true
  is_notifying (notify_sent _) = true
  is_notifying (notify_dropped _) = true
  is_notifying (closing _) = true
  is_notifying _ = false

  pub notifying_if :
      (h : How) (p : Pc A) (k : ℕ)
      → is_notifying p ≡ false
      → (coming h p ≡ false) × (elem k (taken h p) ≡ false)
  notifying_if h p k e = ground arith
