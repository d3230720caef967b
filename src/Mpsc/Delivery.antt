-- ===== src/Mpsc/Delivery.antt =====
-- No message of a channel is stranded while its receiver waits.
use wasm_safe_thread.Base.{ℕ, suc, ◌≡◌, ◌≢◌, ◌<◌, refl, Bool, true, false, List, []}
use wasm_safe_thread.Condvar.State.{How, spin, block, async, woken}
use wasm_safe_thread.Condvar.Roles.{same}
use wasm_safe_thread.Mpsc.State.{Choice, usize}
use wasm_safe_thread.Mpsc.Machine.{init, run}
use wasm_safe_thread.Mpsc.Invariant.{init-Inv}
use wasm_safe_thread.Mpsc.Wakeups.{allowed, awaiting}
use wasm_safe_thread.Mpsc.Sent.{Delivers}
use wasm_safe_thread.Mpsc.Parked.{may_park}
use wasm_safe_thread.Mpsc.Rung.{Rouses}
use wasm_safe_thread.Mpsc.Roused.{move-Rouses, init-Rouses, Rouses-woken}
use wasm_safe_thread.Mpsc.Polled.{move-Delivers, init-Delivers, Delivers-woken}
use wasm_safe_thread.Mpsc.Notifying.{is_notifying}
use wasm_safe_thread.Mpsc.Runs.{every, run_keeps}

module _ {A : Type 0} where
  -- A receive waits by `h`, and without a deadline if it parks; or the choice is no receive.
  abbrev pub may : How → Choice A → Bool
  may block x = may_park x
  may spin x = allowed spin x
  may async x = allowed async x

  module _ (n : ℕ) (es : List (ℕ × Choice A)) (size : suc (suc n) < usize) where
    run-Delivers :
        (h : How)
        → same h block ≡ false
        → every (allowed h) es ≡ true
        → Delivers h (run (init (suc (suc n))) es)
    run-Delivers h way ok =
        run_keeps (allowed h) (Delivers h) (λ s t x. move-Delivers h s t x way) (init (suc (suc n)))
          es ok (init-Delivers h n way) (init-Inv n size)

    run-Rouses : every may_park es ≡ true → Rouses (run (init (suc (suc n))) es)
    run-Rouses ok =
        run_keeps may_park Rouses move-Rouses (init (suc (suc n))) es ok (init-Rouses n)
          (init-Inv n size)

  -- After any interleaving in which every receive polls, with a deadline or without, every one waits
  -- in an async task, or every one parks without a deadline: when a message is queued, no thread is
  -- between a push and the end of its notification or in another notification, and the receiver is
  -- registered, then it has been woken, spurious returns of `park` or not. So no message that was
  -- sent waits for a receiver that sleeps.
  pub no_message_stranded :
      (h : How) (n : ℕ) (es : List (ℕ × Choice A)) (k : ℕ)
      → every (may h) es ≡ true
      → suc (suc n) < usize
      → (run (init (suc (suc n))) es).shared.queue ≢ []
      → ((u : ℕ) → is_notifying ((run (init (suc (suc n))) es).pc u) ≡ false)
      → awaiting h ((run (init (suc (suc n))) es).pc 0) k ≡ true
      → woken h (run (init (suc (suc n))) es).shared.cond k ≡ true
  no_message_stranded spin n es k ok size = Delivers-woken k (run-Delivers n es size spin refl ok)
  no_message_stranded async n es k ok size = Delivers-woken k (run-Delivers n es size async refl ok)
  no_message_stranded block n es k ok size = Rouses-woken k (run-Rouses n es size ok)
