-- ===== src/Mpsc/Parked.antt =====
-- What one turn does to the list in which the receiver waits, when it parks without a deadline. A
-- spurious return of `park` leaves an entry there, but every entry is the receiver's.
use wasm_safe_thread.Base.{
  ℕ, ◌≡◌, refl, ◌⊎◌, Bool, true, false, List, [], ◌∷◌, ◌&&◌, not, arith, elem, elem-push,
  elem-pop_last, pop_last, push,
}
use wasm_safe_thread.Condvar.State.{How, block, Cond}
use wasm_safe_thread.Condvar.Notify.{NotifyPc, notify}
use wasm_safe_thread.Condvar.Wait.{wait}
use wasm_safe_thread.Condvar.Roles.{same}
use wasm_safe_thread.Mpsc.State
use wasm_safe_thread.Mpsc.State.{
  Shared, Pc, Choice, Mode, recv, sender, receiver, locking, count, waiting, receive, notify_sent,
  notify_dropped, closing,
}
use wasm_safe_thread.Mpsc.Send.{send_turn}
use wasm_safe_thread.Mpsc.Recv.{recv_turn}
use wasm_safe_thread.Mpsc.Machine.{turn}
use wasm_safe_thread.Mpsc.Roles.{guarded, Knows}
use wasm_safe_thread.Mpsc.Wakeups.{is_receiver, awaiting, taken, coming, before_release}

-- Every entry is thread 0, the receiver.
abbrev pub AllZero : List ℕ → Type 0
AllZero [] = Unit {0}
AllZero (x ∷ xs) = (x ≡ 0) × AllZero xs

AllZero-push : (xs : List ℕ) → AllZero xs → AllZero (push xs 0)
AllZero-push [] z = (refl, tt)
AllZero-push (x ∷ xs) (e, z) = (e, AllZero-push xs z)

pop_last-AllZero :
    (x : ℕ) (xs : List ℕ) → AllZero (x ∷ xs) → ((pop_last x xs).0 ≡ 0) × AllZero (pop_last x xs).1
unfolding pop_last
pop_last-AllZero x [] (e, z) = (e, tt)
pop_last-AllZero x (y ∷ ys) (e, z) = let k = pop_last-AllZero y ys z in (k.0, (e, k.1))

abbrev pub OnlyParked : Cond → Type 0
OnlyParked c =
    (c.waiting_spin_threads ≡ []) × (c.waiting_async_threads ≡ []) × AllZero c.waiting_sync_threads

notify-OnlyParked :
    (xs : List ℕ) (c : Cond) (p : NotifyPc)
    → c.waiting_sync_threads ≡ xs
    → OnlyParked c
    → OnlyParked (notify c p).0
unfolding notify
notify-OnlyParked [] c p l e = ground arith
notify-OnlyParked (y ∷ ys) c p l e = ground (arith, pop_last-AllZero y ys)

abbrev pub parks : How → (timed : Bool) → Bool
parks h timed = same block h && not timed

abbrev pub mode_parks : Mode → Bool
mode_parks (recv h timed) = parks h timed
mode_parks _ = true

module _ {A : Type 0} where
  -- A receive that parks without a deadline, or no receive.
  abbrev pub is_parking : Pc A → Bool
  is_parking (locking h timed) = parks h timed
  is_parking (State.take m) = mode_parks m
  is_parking (count m) = mode_parks m
  is_parking (waiting h timed _) = parks h timed
  is_parking _ = true

  abbrev pub may_park : Choice A → Bool
  may_park (receive h timed) = parks h timed
  may_park _ = true

  -- A turn of a sender.
  pub record Rings (p p' : Pc A) (s s' : Shared A) : Type 0 where
    pub lists : OnlyParked s'.cond
    pub moved :
        elem 0 s.cond.waiting_sync_threads ≡ true
        → (elem 0 s'.cond.waiting_sync_threads ≡ true) ⊎ (elem 0 (taken block p') ≡ true)
    pub wakes : s.cond.token 0 ≡ true → s'.cond.token 0 ≡ true
    pub pended :
        elem 0 (taken block p) ≡ true → (elem 0 (taken block p') ≡ true) ⊎ (s'.cond.token 0 ≡ true)
    pub arrives :
        coming block p ≡ true
        → (coming block p' ≡ true)
          ⊎ (elem 0 (taken block p') ≡ true)
          ⊎ ((s.cond.waiting_sync_threads ≡ []) × (taken block p ≡ []))
    pub pushes : (s'.queue ≡ s.queue) ⊎ ((coming block p' ≡ true) × (guarded p ≡ true))
    pub still : is_receiver p' ≡ false

  -- In a notification, by what the list has.
  sent-Rings :
      (xs : List ℕ) (x : Choice A) (t : ℕ) (s : Shared A) (p : NotifyPc)
      → s.cond.waiting_sync_threads ≡ xs
      → OnlyParked s.cond
      → Rings (notify_sent p) (turn x t s (notify_sent p)).1 s (turn x t s (notify_sent p)).0
  unfolding turn send_turn notify
  sent-Rings [] x t s p l e = ground arith
  sent-Rings (y ∷ ys) x t s p l e = ground (arith, pop_last-AllZero y ys, elem-pop_last 0 y ys)

  dropped-Rings :
      (xs : List ℕ) (x : Choice A) (t : ℕ) (s : Shared A) (p : NotifyPc)
      → s.cond.waiting_sync_threads ≡ xs
      → OnlyParked s.cond
      → Rings
          (notify_dropped p)
          (turn x t s (notify_dropped p)).1
          s
          (turn x t s (notify_dropped p)).0
  unfolding turn send_turn notify
  dropped-Rings [] x t s p l e = ground arith
  dropped-Rings (y ∷ ys) x t s p l e = ground (arith, pop_last-AllZero y ys, elem-pop_last 0 y ys)

  pub send-Rings :
      (x : Choice A) (t : ℕ) (s : Shared A) (p : Pc A)
      → OnlyParked s.cond
      → is_receiver p ≡ false
      → Rings p (turn x t s p).1 s (turn x t s p).0
  unfolding turn send_turn
  send-Rings x t s (notify_sent p) e r = sent-Rings s.cond.waiting_sync_threads x t s p refl e
  send-Rings x t s (notify_dropped p) e r = dropped-Rings s.cond.waiting_sync_threads x t s p refl e
  send-Rings x t s sender e r = ground arith
  send-Rings x t s p e r = ground arith

  -- A turn of the receiver.
  pub record Parks (p p' : Pc A) (s s' : Shared A) : Type 0 where
    pub lists : OnlyParked s'.cond
    pub still : is_receiver p' ≡ true
    pub way : is_parking p' ≡ true
    pub covers :
        awaiting block p' 0 ≡ true
        → ((elem 0 s'.cond.waiting_sync_threads ≡ true) × (s'.queue ≡ []))
          ⊎ ((awaiting block p 0 ≡ true)
              × (s'.cond.waiting_sync_threads ≡ s.cond.waiting_sync_threads)
              × (s'.cond.token 0 ≡ s.cond.token 0)
              × (s'.queue ≡ s.queue))
    pub quiet : before_release p' ≡ true → s'.queue ≡ []

  pub recv-Parks :
      (x : Choice A) (s : Shared A) (p : Pc A)
      → OnlyParked s.cond
      → may_park x ≡ true
      → is_receiver p ≡ true
      → is_parking p ≡ true
      → (before_release p ≡ true → s.queue ≡ [])
      → Knows s p
      → Parks p (turn x 0 s p).1 s (turn x 0 s p).0
  unfolding turn recv_turn wait
  recv-Parks x s (waiting block false p) e a r w q k =
      ground
        (arith, AllZero-push s.cond.waiting_sync_threads, elem-push 0 0 s.cond.waiting_sync_threads)
  recv-Parks x s (waiting h timed p) e a r w q k = cc
  recv-Parks x s (closing p) e a r w q k =
      ground (arith, notify-OnlyParked s.cond.waiting_sync_threads s.cond p refl)
  recv-Parks x s receiver e a r w q k = ground arith
  recv-Parks x s p e a r w q k = ground arith
