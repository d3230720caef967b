-- ===== src/Mpsc/Wakeups.antt =====
-- What one turn does to the list in which the receiver waits, when it waits by one way only: by
-- polling a flag, or in an async task.
use wasm_safe_thread.Base.{
  ℕ, zero, suc, refl, ◌==◌, ◌≡◌, ◌⊎◌, inl, inr, Bool, true, false, List, [], ◌∷◌, ◌&&◌, ◌≤◌, ◌<◌,
  arith, elem, pop_last,
}
use wasm_safe_thread.Condvar.State.{How, spin, block, async, Cond, list, woken}
use wasm_safe_thread.Condvar.Notify.{notify, pop_from}
use wasm_safe_thread.Condvar.Wait.{wait, register, release}
use wasm_safe_thread.Condvar.Roles.{same, registered, pending}
use wasm_safe_thread.Condvar.Machine.{notifying}
use wasm_safe_thread.Mpsc.State
use wasm_safe_thread.Mpsc.State.{
  Shared, Pc, Choice, Mode, recv, absent, sender, check, enter, recheck, put, leave, reject,
  refused, notify_sent, notify_dropped, receiver, locking, count, waiting, returning, returned,
  closing, closed, receive,
}
use wasm_safe_thread.Mpsc.Send.{send_turn}
use wasm_safe_thread.Mpsc.Recv.{recv_turn}
pub use wasm_safe_thread.Mpsc.Roles.{is_receiver}
use wasm_safe_thread.Mpsc.Machine.{turn, handles}
use wasm_safe_thread.Mpsc.Roles.{guarded, Knows}

abbrev pub mode_uses : How → Mode → Bool
mode_uses h (recv h' _) = same h h'
mode_uses h _ = true

-- The lists that `notify_one` has not passed.
abbrev pub until : How → How → Bool
until spin spin = true
until spin _ = false
until async _ = true
until block async = false
until block _ = true

abbrev pub NobodyElse : How → Cond → Type 0
NobodyElse h c =
    (c.waiting_sync_threads ≡ [])
    × (same h spin ≡ false → c.waiting_spin_threads ≡ [])
    × (same h async ≡ false → c.waiting_async_threads ≡ [])

abbrev pub AtMostOne : List ℕ → Type 0
AtMostOne xs = (xs ≡ []) ⊎ ((k : ℕ) × (xs ≡ k ∷ []))

-- Flags and continuations are numbered, and a registration has a new number.
pub record Numbers (h : How) (c : Cond) : Type 0 where
  pub fresh : (k : ℕ) → c.next ≤ k → woken h c k ≡ false
  pub listed : (k : ℕ) → elem k (list h c) ≡ true → (k < c.next) × (woken h c k ≡ false)

module _ {A : Type 0} where
  -- The receiver's side.

  -- A receive by the way `h`, or no receive.
  abbrev pub uses : How → Pc A → Bool
  uses h (locking h' _) = same h h'
  uses h (State.take m) = mode_uses h m
  uses h (count m) = mode_uses h m
  uses h (waiting h' _ _) = same h h'
  uses h _ = true

  abbrev pub allowed : How → Choice A → Bool
  allowed h (receive h' _) = same h h'
  allowed h _ = true

  -- The receiver is registered under `k`.
  abbrev pub awaiting : How → Pc A → ℕ → Bool
  awaiting h (waiting h' timed p) k = same h h' && registered h 0 p k
  awaiting h _ k = false

  -- What a notification has taken out of the list and not woken.
  abbrev pub taken : How → Pc A → List ℕ
  taken h (notify_sent p) = pending h (notifying false p)
  taken h (notify_dropped p) = pending h (notifying false p)
  taken h (closing p) = pending h (notifying false p)
  taken h _ = []

  -- The sender has pushed a message, and will look at the list.
  abbrev pub coming : How → Pc A → Bool
  coming h leave = true
  coming h (notify_sent (pop_from h')) = until h h'
  coming h _ = false

  -- It has the guard, and has seen an empty queue.
  abbrev pub before_release : Pc A → Bool
  before_release (waiting _ _ register) = true
  before_release (waiting _ _ (release _)) = true
  before_release _ = false

  -- The list is empty, or has the receiver alone.
  abbrev pub Single : How → Pc A → List ℕ → Type 0
  Single h p xs = (xs ≡ []) ⊎ ((k : ℕ) × (xs ≡ k ∷ []) × (awaiting h p k ≡ true))

  -- A turn of a sender.
  pub record Sends (h : How) (p p' : Pc A) (s s' : Shared A) : Type 0 where
    pub lists :
        (k : ℕ)
        → elem k (list h s'.cond) ≡ true
        → (list h s'.cond ≡ list h s.cond)
          × (elem k (taken h p') ≡ true → elem k (taken h p) ≡ true)
    pub moved :
        (k : ℕ)
        → elem k (list h s.cond) ≡ true
        → (elem k (list h s'.cond) ≡ true) ⊎ (elem k (taken h p') ≡ true)
    pub emptied : (list h s'.cond ≡ list h s.cond) ⊎ (list h s'.cond ≡ [])
    pub nobody : NobodyElse h s'.cond
    pub wakes : (k : ℕ) → woken h s.cond k ≡ true → woken h s'.cond k ≡ true
    pub woke :
        (k : ℕ) → woken h s'.cond k ≡ true → (woken h s.cond k ≡ true) ⊎ (elem k (taken h p) ≡ true)
    pub takes :
        (k : ℕ)
        → elem k (taken h p') ≡ true
        → (elem k (taken h p) ≡ true) ⊎ (elem k (list h s.cond) ≡ true)
    pub pended :
        (k : ℕ)
        → elem k (taken h p) ≡ true
        → (elem k (taken h p') ≡ true) ⊎ (woken h s'.cond k ≡ true)
    pub arrives : coming h p ≡ true → (coming h p' ≡ true) ⊎ (list h s'.cond ≡ [])
    pub pushes : (s'.queue ≡ s.queue) ⊎ ((coming h p' ≡ true) × (guarded p ≡ true))
    pub numbers : s'.cond.next ≡ s.cond.next
    pub still : is_receiver p' ≡ false

  pub send-Sends :
      (h : How) (x : Choice A) (t : ℕ) (s : Shared A) (p : Pc A)
      → same h block ≡ false
      → NobodyElse h s.cond
      → AtMostOne (list h s.cond)
      → is_receiver p ≡ false
      → Sends h p (turn x t s p).1 s (turn x t s p).0
  unfolding turn send_turn notify pop_last
  send-Sends block x t s p way e one r = cc
  send-Sends h x t s (notify_sent p) way e (inl empty) r = ground arith
  send-Sends h x t s (notify_sent p) way e (inr (k, single)) r = ground arith
  send-Sends h x t s (notify_dropped p) way e (inl empty) r = ground arith
  send-Sends h x t s (notify_dropped p) way e (inr (k, single)) r = ground arith
  send-Sends h x t s sender way e one r = ground arith
  send-Sends h x t s p way e one r = ground arith

  -- A turn of the receiver.
  pub record Receives (h : How) (p p' : Pc A) (s s' : Shared A) : Type 0 where
    pub single : Single h p' (list h s'.cond)
    pub nobody : NobodyElse h s'.cond
    pub untaken : taken h p' ≡ []
    pub still : is_receiver p' ≡ true
    pub way : uses h p' ≡ true
    pub covers :
        (k : ℕ)
        → awaiting h p' k ≡ true
        → (elem k (list h s'.cond) ≡ true)
          ⊎ ((awaiting h p k ≡ true)
              × (elem k (list h s.cond) ≡ false)
              × (woken h s.cond k ≡ true → woken h s'.cond k ≡ true))
    pub enters :
        (k : ℕ)
        → elem k (list h s'.cond) ≡ true
        → (elem k (list h s.cond) ≡ true) ⊎ ((s'.queue ≡ []) × (s.cond.next ≤ k))
    pub drains : s.queue ≡ [] → s'.queue ≡ []
    pub quiet : before_release p' ≡ true → s'.queue ≡ []
    pub numbers : Numbers h s'.cond
    pub counts : s.cond.next ≤ s'.cond.next

  pub recv-Receives :
      (h : How) (x : Choice A) (t : ℕ) (s : Shared A) (p : Pc A)
      → same h block ≡ false
      → allowed h x ≡ true
      → NobodyElse h s.cond
      → Single h p (list h s.cond)
      → Numbers h s.cond
      → taken h p ≡ []
      → is_receiver p ≡ true
      → uses h p ≡ true
      → (before_release p ≡ true → s.queue ≡ [])
      → Knows s p
      → Receives h p (turn x t s p).1 s (turn x t s p).0
  unfolding turn recv_turn notify wait pop_last
  recv-Receives block x t s p way a e one n u r w q k = cc
  recv-Receives spin x t s (waiting spin false p) way a e (inl empty) n u r w q k =
      ground (arith, n)
  recv-Receives spin x t s (waiting spin false p) way a e (inr (j, single, m)) n u r w q k =
      ground (arith, n, n.listed j)
  recv-Receives spin x t s (waiting spin true p) way a e (inl empty) n u r w q k = ground (arith, n)
  recv-Receives spin x t s (waiting spin true p) way a e (inr (j, single, m)) n u r w q k =
      ground (arith, n, n.listed j)
  recv-Receives async x t s (waiting async false p) way a e (inl empty) n u r w q k =
      ground (arith, n)
  recv-Receives async x t s (waiting async false p) way a e (inr (j, single, m)) n u r w q k =
      ground (arith, n, n.listed j)
  recv-Receives async x t s (waiting async true p) way a e (inl empty) n u r w q k =
      ground (arith, n)
  recv-Receives async x t s (waiting async true p) way a e (inr (j, single, m)) n u r w q k =
      ground (arith, n, n.listed j)
  recv-Receives h x t s (waiting h' timed p) way a e one n u r w q k = cc
  recv-Receives h x t s (closing p) way a e (inl empty) n u r w q k = ground (arith, n)
  recv-Receives h x t s receiver way a e (inl empty) n u r w q k = ground (arith, n)
  recv-Receives h x t s p way a e (inl empty) n u r w q k = ground (arith, n)
  recv-Receives h x t s p way a e (inr (j, single, m)) n u r w q k = cc

-- Thread 0 has the receiver at the start.
pub init_sides : (A : Type 0) (u : ℕ) → is_receiver (handles {A = A} u) ≡ (u == 0)
init_sides A zero = refl
init_sides A (suc zero) = refl
init_sides A (suc (suc u)) = ground arith
