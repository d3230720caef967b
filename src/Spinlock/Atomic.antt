-- ===== src/Spinlock/Atomic.antt =====
-- The closures of `with_mut` run as if each were one atomic step.
use wasm_safe_thread.Base.{
  ℕ, ◌≡◌, refl, ◌∙◌, inl, inr, Bool, true, false, List, [], ◌∷◌, arith, ◌==◌, Bool-cases,
}
use wasm_safe_thread.Interleave.{Shift, Excl, Shift-Excl}
use wasm_safe_thread.Spinlock.Threads.{
  Pc, Mem, Choice, System, idle, swap, commit, turn, step, run, init, commits, committed,
}

module _ {A : Type 0} where
  abbrev pub inside : Pc A → Bool
  inside idle = false
  inside (swap _) = false
  inside _ = true

  abbrev IsFresh : Mem A → Pc A → Type 0
  IsFresh m (commit f a) = m.value ≡ a
  IsFresh m _ = Unit {0}

  record Inv (s : System A) : Type 0 where
    excl : Excl inside s.pc s.mem.locked
    fresh : (t : ℕ) → IsFresh s.mem (s.pc t)

  turn-Shift :
      (c : Choice A) (m : Mem A) (p : Pc A)
      → Shift m.locked (inside p) (turn c m p).0.locked (inside (turn c m p).1)
  unfolding turn
  turn-Shift c m idle = ground arith
  turn-Shift c m p = ground arith

  self_IsFresh :
      (c : Choice A) (m : Mem A) (p : Pc A) → IsFresh m p → IsFresh (turn c m p).0 (turn c m p).1
  unfolding turn
  self_IsFresh c m idle h = ground arith
  self_IsFresh c m p h = ground arith

  other_IsFresh :
      (c : Choice A) (m : Mem A) (p q : Pc A)
      → (inside p ≡ true → inside q ≡ true → ⊥)
      → IsFresh m q
      → IsFresh (turn c m p).0 q
  unfolding turn
  other_IsFresh c m (commit f a) (commit g b) apart h = absurd (apart refl refl)
  other_IsFresh c m p q apart h = ground arith

  step-Inv : (s : System A) (e : ℕ × Choice A) → Inv s → Inv (step s e)
  unfolding step
  step-Inv s (t, c) v = record {
    excl = Shift-Excl inside t _ (turn-Shift c s.mem (s.pc t)) v.excl;
    fresh = λ u. elim (Bool-cases (t == u)) [
      | inl same ↦ ground (arith, self_IsFresh c s.mem (s.pc t) (v.fresh t))
      | inr other ↦ ground (
        arith,
        other_IsFresh c s.mem (s.pc t) (s.pc u)
            (λ h k. absurd (ground (arith, v.excl.unique t u h k))) (v.fresh u),
      )
    ];
  }

  init-Inv : (a : A) → Inv (init a)
  init-Inv a = record {
    excl = record { owned = λ t h. ground arith; unique = λ t u h k. ground arith };
    fresh = λ t. tt;
  }

  run-Inv : (s : System A) (es : List (ℕ × Choice A)) → Inv s → Inv (run s es)
  unfolding run
  run-Inv s [] v = v
  run-Inv s (e ∷ es) v = run-Inv (step s e) es (step-Inv s e v)

  -- However the calls interleave, two threads are never inside `with_mut` together.
  pub closures_exclude :
      (a : A) (es : List (ℕ × Choice A)) (t u : ℕ)
      → inside ((run (init a) es).pc t) ≡ true
      → inside ((run (init a) es).pc u) ≡ true
      → t ≡ u
  closures_exclude a es t u = (run-Inv (init a) es (init-Inv a)).excl.unique t u

  -- The data after some closures, run one after the other.
  unfoldable pub apply_all : List (A → A) → A → A
  apply_all [] a = a
  apply_all (f ∷ fs) a = apply_all fs (f a)

  apply_all-turn :
      (c : Choice A) (m : Mem A) (p : Pc A) (fs : List (A → A))
      → IsFresh m p
      → apply_all fs (turn c m p).0.value ≡ apply_all (committed p fs) m.value
  unfolding turn apply_all
  apply_all-turn c m (commit f a) fs h = rw h
  apply_all-turn c m p fs h = refl

  run-commits :
      (s : System A) (es : List (ℕ × Choice A))
      → Inv s
      → (run s es).mem.value ≡ apply_all (commits s es) s.mem.value
  unfolding run commits step
  run-commits s [] v = unfold apply_all in refl
  run-commits s ((t, c) ∷ es) v =
      run-commits (step s (t, c)) es (step-Inv s (t, c) v)
      ∙ apply_all-turn c s.mem (s.pc t) (commits (step s (t, c)) es) (v.fresh t)

  -- However the calls interleave, the data are what the closures that have been committed give when
  -- they run one after the other, in the order of their commits: no update is lost or seen in part.
  pub closures_are_atomic :
      (a : A) (es : List (ℕ × Choice A))
      → (run (init a) es).mem.value ≡ apply_all (commits (init a) es) a
  closures_are_atomic a es = run-commits (init a) es (init-Inv a)
