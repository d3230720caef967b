-- ===== src/Condvar/MonitorSafety.antt =====
-- What the loops over a condition guarantee: the condition is false when they return, and each turn is
-- one of the condition variable's.
use wasm_safe_thread.Base.{
  ℕ, ◌≡◌, refl, ap, ◌∙◌, subst, Bool, true, false, List, [], ◌∷◌, ◌==◌, arith, if◌then◌else◌, sym,
  inl, inr, Bool-cases,
}
use wasm_safe_thread.Interleave.{Excl, Shift, Shift-Excl}
use wasm_safe_thread.Condvar.State.{How, Cond}
use wasm_safe_thread.Condvar.Wait.{WaitPc, wait, register}
use wasm_safe_thread.Condvar.Owners.{owns, notify_mutex, wait-Shift}
use wasm_safe_thread.Condvar.Monitor.{
  Pc, idle, locking, owner, testing, waiting, returned, notifying, Choice, Shared, System, turn,
  after_wait, the_event, step, run, init,
}

module _ {C : Type 0} where
  abbrev pub guarded : Pc C → Bool
  guarded idle = false
  guarded locking = false
  guarded owner = true
  guarded (testing h timed c) = true
  guarded (waiting h timed c p) = owns p
  guarded (returned timed_out c) = true
  guarded (notifying held p) = held

module _ {C D : Type 0} (eval : C → D → Bool × D) where
  -- A loop that returned without a timeout has just found its condition false.
  abbrev pub Knows : Shared D → Pc C → Type 0
  Knows s (returned false c) = (d : D) × (eval c d ≡ (false, s.value))
  Knows s _ = Unit {0}

  abbrev Shifts : Shared D → Pc C → Shared D × Pc C → Type 0
  Shifts s p r = Shift s.cond.mutex (guarded p) r.0.cond.mutex (guarded r.1)

  pub guarded-after_wait :
      (h : How) (timed : Bool) (c : C) (s : Shared D) (k : Cond) (p : WaitPc)
      → (guarded (after_wait eval h timed c s (k, p)).1 ≡ owns p)
        × ((after_wait eval h timed c s (k, p)).0.cond.mutex ≡ k.mutex)
  guarded-after_wait h timed c s k p = ground arith

  pub turn-Shift :
      (x : Choice C D) (t : ℕ) (s : Shared D) (p : Pc C) → Shifts s p (turn eval x t s p)
  unfolding turn
  turn-Shift x t s (waiting h timed c p) =
      let r = wait h timed (the_event eval x) t s.cond p in
      let e = guarded-after_wait h timed c s r.0 r.1 in
      rw (e.0, e.1) (wait-Shift h timed (the_event eval x) t s.cond p)
  turn-Shift x t s (notifying held p) = ground (arith, notify_mutex s.cond p)
  turn-Shift x t s idle = ground arith
  turn-Shift x t s owner = ground arith
  turn-Shift x t s p = ground arith

  tested-Knows :
      (h : How) (timed : Bool) (c : C) (s : Shared D) (d : D) (r : Bool × D)
      → eval c d ≡ r
      → Knows
          (record s { value = r.1 })
          (if r.0 then waiting h timed c register else returned false c)
  tested-Knows h timed c s d (true, d') e = tt
  tested-Knows h timed c s d (false, d') e = (d, e)

  self_Knows :
      (x : Choice C D) (t : ℕ) (s : Shared D) (p : Pc C)
      → Knows (turn eval x t s p).0 (turn eval x t s p).1
  unfolding turn
  self_Knows x t s (testing h timed c) = tested-Knows h timed c s s.value (eval c s.value) refl
  self_Knows x t s idle = ground arith
  self_Knows x t s owner = ground arith
  self_Knows x t s p = ground arith

  -- The value changes through the guard alone.
  turn_value :
      (x : Choice C D) (t : ℕ) (s : Shared D) (p : Pc C)
      → guarded p ≡ false
      → (turn eval x t s p).0.value ≡ s.value
  unfolding turn
  turn_value x t s p e = ground arith

  moved-Knows : (s s' : Shared D) (q : Pc C) → s'.value ≡ s.value → Knows s q → Knows s' q
  moved-Knows s s' (returned false c) e (d, k) = (d, k ∙ ap (λ v. (false, v)) (sym e))
  moved-Knows s s' (returned true c) e k = tt
  moved-Knows s s' idle e k = tt
  moved-Knows s s' locking e k = tt
  moved-Knows s s' owner e k = tt
  moved-Knows s s' (testing h timed c) e k = tt
  moved-Knows s s' (waiting h timed c p) e k = tt
  moved-Knows s s' (notifying held p) e k = tt

  free-Knows : (s : Shared D) (q : Pc C) → guarded q ≡ false → Knows s q
  free-Knows s q e = ground arith

  other_Knows :
      (x : Choice C D) (t : ℕ) (s : Shared D) (p q : Pc C)
      → (guarded p ≡ true → guarded q ≡ true → ⊥)
      → Knows s q
      → Knows (turn eval x t s p).0 q
  other_Knows x t s p q apart k = elim (Bool-cases (guarded p)) [
    | inr free ↦ moved-Knows s (turn eval x t s p).0 q (turn_value x t s p free) k
    | inl g ↦ elim (Bool-cases (guarded q)) [
      | inl g' ↦ absurd (apart g g')
      | inr free ↦ free-Knows (turn eval x t s p).0 q free
    ]
  ]

  pub record Inv (s : System C D) : Type 0 where
    pub excl : Excl guarded s.pc s.shared.cond.mutex
    pub knows : (t : ℕ) → Knows s.shared (s.pc t)

  step-Inv : (s : System C D) (e : ℕ × Choice C D) → Inv s → Inv (step eval s e)
  unfolding step
  step-Inv s (t, x) v = record {
    excl = Shift-Excl guarded t _ (turn-Shift x t s.shared (s.pc t)) v.excl;
    knows = λ u. elim (Bool-cases (t == u)) [
      | inl equal ↦ ground (arith, self_Knows x t s.shared (s.pc t))
      | inr other ↦ ground (
        arith,
        other_Knows x t s.shared (s.pc t) (s.pc u) (λ g g'. ground (arith, v.excl.unique t u g g'))
            (v.knows u),
      )
    ];
  }

  pub run-Inv : (s : System C D) (es : List (ℕ × Choice C D)) → Inv s → Inv (run eval s es)
  unfolding run
  run-Inv s [] v = v
  run-Inv s (e ∷ es) v = run-Inv (step eval s e) es (step-Inv s e v)

  pub init-Inv : (d : D) → Inv (init d)
  init-Inv d = record {
    excl = record { owned = λ t g. cc; unique = λ t u g k. cc };
    knows = λ t. tt;
  }

  cast_Knows : (s : Shared D) (p q : Pc C) → p ≡ q → Knows s p → Knows s q
  cast_Knows s p q e k = subst (Knows s) e k

  -- After any interleaving of threads that lock, write, wait for conditions and notify, when a loop
  -- over a condition has returned and it did not time out, the mutex is locked, for its thread,
  -- and the value in the mutex is the one with which the condition has just answered false.
  pub condition_is_false_on_return :
      (d : D) (es : List (ℕ × Choice C D)) (t : ℕ) (c : C)
      → (run eval (init d) es).pc t ≡ returned false c
      → let s = run eval (init d) es in
        (s.shared.cond.mutex ≡ true) × ((e : D) × (eval c e ≡ (false, s.shared.value)))
  condition_is_false_on_return d es t c e =
      let s : System C D = run eval (init d) es in
      let v = run-Inv (init d) es (init-Inv d) in
      (v.excl.owned t (ground arith), cast_Knows s.shared (s.pc t) (returned false c) e (v.knows t))

  -- After any interleaving, two threads never have the guard together, in a loop or outside.
  pub guard_is_exclusive :
      (d : D) (es : List (ℕ × Choice C D)) (t u : ℕ)
      → guarded ((run eval (init d) es).pc t) ≡ true
      → guarded ((run eval (init d) es).pc u) ≡ true
      → t ≡ u
  guard_is_exclusive d es t u = (run-Inv (init d) es (init-Inv d)).excl.unique t u
