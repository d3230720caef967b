-- ===== src/Condvar/Refinement.antt =====
-- The loops over a condition add nothing to the condition variable: each of their turns is a turn of
-- `Machine`, so what holds of it holds of them.
use wasm_safe_thread.Base.{
  ℕ, ◌≡◌, refl, ap, ◌∙◌, sym, subst, Bool, true, false, List, [], ◌∷◌, arith, update, if◌then◌else◌,
  ◌⊎◌, elem,
}
use mathlib.Core.Path.{fun_ext}
use wasm_safe_thread.Condvar.State.{How, Cond, woken, list}
use wasm_safe_thread.Condvar.Notify.{NotifyPc, notify}
use wasm_safe_thread.Condvar.Wait.{WaitPc, wait}
use wasm_safe_thread.Condvar.Machine
use wasm_safe_thread.Condvar.Wait
use wasm_safe_thread.Condvar.Roles.{awaits}
use wasm_safe_thread.Condvar.Safety.{is_notifying, no_waiter_forgotten}
use wasm_safe_thread.Condvar.Monitor.{
  Pc, idle, locking, owner, testing, waiting, returned, notifying, Choice, event, lock, unlock,
  start_one, start_all, Shared, System, turn, after_wait, after_notify, the_event, step, run, init,
}

-- Where the thread stands in `Machine`: at the head of a loop, and when it has returned, it has the
-- guard.
abbrev pub erase_pc : {C : Type 0} → Pc C → Machine.Pc
erase_pc idle = Machine.idle
erase_pc locking = Machine.locking
erase_pc owner = Machine.owner
erase_pc (testing h timed c) = Machine.owner
erase_pc (waiting h timed c p) = Machine.waiting h timed p
erase_pc (returned timed_out c) = Machine.owner
erase_pc (notifying held p) = Machine.notifying held p

abbrev erase_choice : {C D : Type 0} → Choice C D → Machine.Choice
erase_choice (event e) = Machine.event e
erase_choice lock = Machine.lock
erase_choice unlock = Machine.unlock
erase_choice start_one = Machine.start_one
erase_choice start_all = Machine.start_all
erase_choice _ = Machine.event Wait.go

abbrev pub erase : {C D : Type 0} → System C D → Machine.System
erase s = record { cond = s.shared.cond; pc = λ t. erase_pc (s.pc t) }

System-path :
    {c c' : Cond} {f g : ℕ → Machine.Pc}
    → c ≡ c'
    → ((u : ℕ) → f u ≡ g u)
    → ◌≡◌ {A = Machine.System} (record { cond = c; pc = f }) (record { cond = c'; pc = g })
System-path e h = λ i. record { cond = e i; pc = fun_ext h i }

module _ {C D : Type 0} (eval : C → D → Bool × D) where
  -- A loop whose condition holds waits; one that ends, or has returned, does nothing there.
  abbrev erase_turn : Choice C D → Shared D → Pc C → Machine.Choice
  erase_turn x s (testing h timed c) =
      if (eval c s.value).0 then Machine.start_wait h timed else Machine.event Wait.go
  erase_turn x s (returned timed_out c) = Machine.event Wait.go
  erase_turn x s p = erase_choice x

  abbrev Erased : Shared D × Pc C → Cond × Machine.Pc → Type 0
  Erased r m = (r.0.cond ≡ m.0) × (erase_pc r.1 ≡ m.1)

  the_event-erase : (x : Choice C D) → the_event eval x ≡ Machine.the_event (erase_choice x)
  the_event-erase x = ground arith

  after_wait-erase :
      (h : How) (timed : Bool) (c : C) (s : Shared D) (k : Cond) (p : WaitPc)
      → Erased (after_wait eval h timed c s (k, p)) (Machine.after_wait h timed (k, p))
  after_wait-erase h timed c s k p = ground arith

  after_notify-erase :
      (held : Bool) (s : Shared D) (k : Cond) (p : NotifyPc)
      → Erased (after_notify eval held s (k, p)) (Machine.after_notify held (k, p))
  after_notify-erase held s k p = ground arith

  turn-erase :
      (x : Choice C D) (t : ℕ) (s : Shared D) (p : Pc C)
      → Erased (turn eval x t s p) (Machine.turn (erase_turn x s p) t s.cond (erase_pc p))
  unfolding turn Machine.turn
  turn-erase x t s (waiting h timed c p) =
      let r = wait h timed (the_event eval x) t s.cond p in
      rw (← the_event-erase x) (after_wait-erase h timed c s r.0 r.1)
  turn-erase x t s (notifying held p) = let r = notify s.cond p in after_notify-erase held s r.0 r.1
  turn-erase x t s idle = ground arith
  turn-erase x t s owner = ground arith
  turn-erase x t s (testing h timed c) = ground arith
  turn-erase x t s p = ground arith

  erase_update :
      (pc : ℕ → Pc C) (t : ℕ) (p : Pc C) (u : ℕ)
      → erase_pc (update pc t p u) ≡ update (λ w. erase_pc (pc w)) t (erase_pc p) u
  erase_update pc t p u = ground arith

  step-erase :
      (s : System C D) (t : ℕ) (x : Choice C D)
      → erase (step eval s (t, x)) ≡ Machine.step (erase s) (t, erase_turn x s.shared (s.pc t))
  unfolding step Machine.step
  step-erase s t x =
      let e = turn-erase x t s.shared (s.pc t) in
      System-path e.0 λ u.
        erase_update s.pc t (turn eval x t s.shared (s.pc t)).1 u
        ∙ ap (λ p. update (λ w. erase_pc (s.pc w)) t p u) e.1

  -- The turns of `Machine` that a schedule of loops makes.
  unfoldable pub erase_run : System C D → List (ℕ × Choice C D) → List (ℕ × Machine.Choice)
  erase_run s [] = []
  erase_run s ((t, x) ∷ es) =
      (t, erase_turn x s.shared (s.pc t)) ∷ erase_run (step eval s (t, x)) es

  -- The loops over a condition refine the condition variable: seen without their conditions and the
  -- mutex's value, any schedule of threads that lock, write, wait for conditions and notify is a
  -- schedule of threads that lock, call the single waits and notify.
  loops_refine_waits :
      (s : System C D) (es : List (ℕ × Choice C D))
      → erase (run eval s es) ≡ Machine.run (erase s) (erase_run s es)
  unfolding run Machine.run erase_run
  loops_refine_waits s [] = refl
  loops_refine_waits s ((t, x) ∷ es) =
      loops_refine_waits (step eval s (t, x)) es
      ∙ ap (λ m. Machine.run m (erase_run (step eval s (t, x)) es)) (step-erase s t x)

  abbrev NotForgotten : How → ℕ → ℕ → Machine.System → Type 0
  NotForgotten h t k m =
      ((u : ℕ) → is_notifying (m.pc u) ≡ false)
      → awaits h t (m.pc t) k ≡ true
      → (woken h m.cond k ≡ true) ⊎ (elem k (list h m.cond) ≡ true)

  -- So a thread in a loop over a condition is not forgotten either: after any interleaving, while no
  -- thread notifies, a thread whose loop waits has been woken or is in the list.
  no_loop_forgotten :
      (h : How) (d : D) (es : List (ℕ × Choice C D)) (t k : ℕ)
      → ((u : ℕ) → is_notifying (erase_pc ((run eval (init d) es).pc u)) ≡ false)
      → awaits h t (erase_pc ((run eval (init d) es).pc t)) k ≡ true
      → (woken h (run eval (init d) es).shared.cond k ≡ true)
        ⊎ (elem k (list h (run eval (init d) es).shared.cond) ≡ true)
  no_loop_forgotten h d es t k =
      subst (NotForgotten h t k) (sym (loops_refine_waits (init d) es))
        (no_waiter_forgotten h (erase_run (init d) es) t k)
