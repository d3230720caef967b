-- ===== src/Condvar/Calls.antt =====
-- The loops of src/condvar/*.rs over a condition, beside the calls that a schedule makes: which wait is
-- in the body of a loop, and what ends it.
use wasm_safe_thread.Base.{
  ℕ, ◌≡◌, refl, ap, Bool, true, false, not, ◌&&◌, ◌||◌, inl, inr, Bool-cases, List, [], ◌∷◌, ◌==◌,
  Option, none, some, if◌then◌else◌, arith,
}
use wasm_safe_thread.Condvar.State.{How, spin, block, async, Cond}
use wasm_safe_thread.Condvar.Wait.{
  WaitPc, Event, go, register, late, expired, await_flag, relock, done, wait,
}
use wasm_safe_thread.Condvar.Notify.{NotifyPc, notify}
use wasm_safe_thread.Condvar.Notify
use wasm_safe_thread.Condvar.Monitor.{
  after_notify, Pc, idle, locking, owner, testing, waiting, returned, notifying, Choice, event,
  lock, unlock, write, start_one, start_all, begin, wait_while, wait_sync, Shared, System, turn,
  after_wait, step, run, init,
}
use wasm_safe_thread.Condvar.MonitorSafety.{Knows, run-Inv, init-Inv}

-- A call of a loop: how it waits, whether it has a deadline, and its condition.
pub record Call (C : Type 0) : Type 0 where
  pub how : How
  pub timed : Bool
  pub condition : C

-- The last call of a thread, and whether its deadline has passed since.
pub record Calls (C : Type 0) : Type 0 where
  pub last : Option (Call C)
  pub late : Bool

abbrev is_late : Event → Bool
is_late late = true
is_late _ = false

-- The wait is over because of its deadline, or will be.
abbrev times_out : WaitPc → Bool
times_out (expired k) = true
times_out (await_flag k) = true
times_out (relock b) = b
times_out (done b) = b
times_out _ = false

module _ {C : Type 0} where
  abbrev call : How → Bool → C → Calls C
  call h timed c = record {
    last = some (record { how = h; timed = timed; condition = c });
    late = false;
  }

  -- Before the first.
  abbrev pub no_calls : Calls C
  no_calls = record { last = none; late = false }

  -- A timeout is one of a call with a deadline that has passed.
  abbrev InTime : Bool → Calls C → Bool → Type 0
  InTime timed k b = (not b || (timed && k.late)) ≡ true

  abbrev IsLast : Calls C → How → Bool → C → Type 0
  IsLast k h timed c = k.last ≡ some (record { how = h; timed = timed; condition = c })

module _ {C D : Type 0} where
  -- The owner of the guard calls; `wait_sync_while` is `wait_block_while` where the platform can block,
  -- and `wait_spin_while` elsewhere. An event may be that the deadline passes.
  abbrev pub calls_after : Pc C → Choice C D → Calls C → Calls C
  calls_after owner (wait_while h timed c) k = call h timed c
  calls_after owner (wait_sync supported timed c) k =
      call (if supported then block else spin) timed c
  calls_after p (event e) k = record k { late = k.late || is_late e }
  calls_after p _ k = k

module _ {C D : Type 0} (eval : C → D → Bool × D) where
  -- The calls of thread `t` in a schedule from `s`.
  unfoldable pub calls : ℕ → System C D → List (ℕ × Choice C D) → Calls C → Calls C
  calls t s [] k = k
  calls t s ((u, x) ∷ es) k =
      calls t (step eval s (u, x)) es (if u == t then calls_after (s.pc t) x k else k)

  -- What a thread in a loop does for its last call: it is about to test the condition of that call; or
  -- it is in the wait of that call, its condition having answered true; or it has returned, with a
  -- timeout only if the call has a deadline that has passed.
  abbrev pub Serves : Calls C → Pc C → Type 0
  Serves k (testing h timed c) = IsLast k h timed c
  Serves k (waiting h timed c p) =
      IsLast k h timed c × InTime timed k (times_out p) × ((d : D) × ((eval c d).0 ≡ true))
  Serves k (returned b c) = (h : How) × (timed : Bool) × IsLast k h timed c × InTime timed k b
  Serves k _ = Unit {0}

  -- Only a wait with a deadline times out, and only after it.
  wait-InTime :
      (h : How) (timed : Bool) (e : Event) (t : ℕ) (c : Cond) (p : WaitPc) (k : Calls C)
      → InTime timed k (times_out p)
      → InTime timed (record k { late = k.late || is_late e }) (times_out (wait h timed e t c p).1)
  unfolding wait
  wait-InTime block true e t c p k i = ground arith
  wait-InTime block false e t c p k i = ground arith
  wait-InTime spin true e t c p k i = ground arith
  wait-InTime spin false e t c p k i = ground arith
  wait-InTime async true e t c p k i = ground arith
  wait-InTime async false e t c p k i = ground arith

  begin-Serves :
      (x : Choice C D) (s : Shared D) (k : Calls C)
      → Serves (calls_after owner x k) (begin eval true x s).1
  begin-Serves (event e) s k = tt
  begin-Serves lock s k = tt
  begin-Serves unlock s k = tt
  begin-Serves (write d) s k = tt
  begin-Serves start_one s k = tt
  begin-Serves start_all s k = tt
  begin-Serves (wait_while block false c) s k = refl
  begin-Serves (wait_while block true c) s k = refl
  begin-Serves (wait_while spin false c) s k = refl
  begin-Serves (wait_while spin true c) s k = refl
  begin-Serves (wait_while async false c) s k = refl
  begin-Serves (wait_while async true c) s k = refl
  begin-Serves (wait_sync true false c) s k = refl
  begin-Serves (wait_sync false false c) s k = refl
  begin-Serves (wait_sync true true c) s k = refl
  begin-Serves (wait_sync false true c) s k = refl

  tested-Serves :
      (h : How) (timed : Bool) (c : C) (k : Calls C) (d : D) (r : Bool × D)
      → IsLast k h timed c
      → eval c d ≡ r
      → Serves k (if r.0 then waiting h timed c register else returned false c)
  tested-Serves h timed c k d (true, d') l e = (l, refl, (d, ap (λ q. q.0) e))
  tested-Serves h timed c k d (false, d') l e = (h, timed, l, refl)

  waited-Serves :
      (h : How) (timed : Bool) (c : C) (s : Shared D) (k : Calls C) (q : Cond) (p : WaitPc)
      → IsLast k h timed c
      → InTime timed k (times_out p)
      → ((d : D) × ((eval c d).0 ≡ true))
      → Serves k (after_wait eval h timed c s (q, p)).1
  waited-Serves h true c s k q (done true) l i a = (h, true, l, i)
  waited-Serves h true c s k q (done false) l i a = l
  waited-Serves h false c s k q (done b) l i a = l
  waited-Serves h timed c s k q p l i a = (l, i, a)

  quiet_InTime :
      (timed : Bool) (k : Calls C) (b : Bool)
      → InTime timed (record k { late = k.late || false }) b
      → InTime timed k b
  quiet_InTime timed k b i = ground arith

  notified-Serves :
      (held : Bool) (s : Shared D) (k : Calls C) (r : Cond × NotifyPc)
      → Serves k (after_notify eval held s r).1
  notified-Serves true s k (q, Notify.done) = tt
  notified-Serves false s k (q, Notify.done) = tt
  notified-Serves held s k (q, p) = tt

  turn-Serves :
      (x : Choice C D) (t : ℕ) (s : Shared D) (p : Pc C) (k : Calls C)
      → Serves k p
      → Serves (calls_after p x k) (turn eval x t s p).1
  unfolding turn
  turn-Serves x t s idle k v = ground arith
  turn-Serves x t s locking k v = ground arith
  turn-Serves x t s owner k v = begin-Serves x s k
  turn-Serves x t s (testing h timed c) k v =
      tested-Serves h timed c (calls_after (testing h timed c) x k) s.value (eval c s.value)
        (ground (arith, v)) refl
  turn-Serves (event e) t s (waiting h timed c p) k v =
      let r = wait h timed e t s.cond p in
      waited-Serves h timed c s (record k { late = k.late || is_late e }) r.0 r.1 v.0
        (wait-InTime h timed e t s.cond p k v.1) v.2
  turn-Serves x t s (waiting h timed c p) k v =
      let r = wait h timed go t s.cond p in
      let i = quiet_InTime timed k (times_out r.1) (wait-InTime h timed go t s.cond p k v.1) in
      waited-Serves h timed c s k r.0 r.1 v.0 i v.2
  turn-Serves x t s (returned b c) k v = ground arith
  turn-Serves x t s (notifying held p) k v =
      notified-Serves held s (calls_after (notifying held p) x k) (notify s.cond p)

  step-Serves :
      (t u : ℕ) (x : Choice C D) (s : System C D) (k : Calls C)
      → Serves k (s.pc t)
      → Serves (if u == t then calls_after (s.pc t) x k else k) ((step eval s (u, x)).pc t)
  unfolding step
  step-Serves t u x s k v = elim (Bool-cases (u == t)) [
    | inl own ↦
        let same : u ≡ t = ground arith in rw (own, same) (turn-Serves x t s.shared (s.pc t) k v)
    | inr other ↦ rw other v
  ]

  run-Serves :
      (t : ℕ) (s : System C D) (es : List (ℕ × Choice C D)) (k : Calls C)
      → Serves k (s.pc t)
      → Serves (calls t s es k) ((run eval s es).pc t)
  unfolding calls run
  run-Serves t s [] k v = v
  run-Serves t s ((u, x) ∷ es) k v =
      run-Serves t (step eval s (u, x)) es (if u == t then calls_after (s.pc t) x k else k)
        (step-Serves t u x s k v)

  -- A loop over a condition does what was called. After any interleaving, a thread that is at the head
  -- of a loop is there for its last call of a `wait_*_while` and has the condition of that call; one
  -- that waits is in the wait of that call, by the way and with the deadline that were called for,
  -- and its condition has answered true; and when a loop has returned, then with a timeout only if
  -- its last call has a deadline that has passed since, and without one only if the condition has
  -- just answered false to the value in the mutex.
  pub loops_serve_their_calls :
      (d : D) (es : List (ℕ × Choice C D)) (t : ℕ)
      → let s = run eval (init d) es in
        Serves (calls t (init d) es no_calls) (s.pc t) × Knows eval s.shared (s.pc t)
  loops_serve_their_calls d es t =
      (run-Serves t (init d) es no_calls tt, (run-Inv eval (init d) es (init-Inv eval d)).knows t)
