-- ===== src/Interleave/Sections.antt =====
-- A machine whose threads share a lock, and the sequence of critical sections that its runs come to.
use wasm_safe_thread.Base.{
  ℕ, ◌≡◌, refl, ap, sym, ◌∙◌, subst, Bool, true, false, List, [], ◌∷◌, ◌++◌, Option, some, update,
}
use wasm_safe_thread.Interleave.Exclusion.{Shift}
use wasm_safe_thread.Interleave.Lock.{
  Op, Lock, apply_all, apply_all-append, op_of, data_after, owner_of, IsOwner, Shift-IsOwner,
  turn_allowed,
}

-- The states, with the lock's flag and its data, where each thread stands and whether it has the lock
-- there; where a turn takes its thread, and the closure that it runs on the data if any.
pub record Machine (S E Pc A : Type 0) : Type 0 where
  pub flag : S → Bool
  pub value : S → A
  pub pc : S → ℕ → Pc
  pub holds : Pc → Bool
  pub step : S → ℕ × E → S
  pub run : S → List (ℕ × E) → S
  pub next : S → ℕ × E → Pc
  pub written : S → ℕ × E → Option (A → A)

module _ {S E Pc A : Type 0} (m : Machine S E Pc A) where
  abbrev before : S → ℕ × E → Bool
  before s e = m.holds (m.pc s e.0)

  abbrev now : S → ℕ × E → Bool
  now s e = m.holds (m.next s e)

  -- What the machine's turns do to the lock, in the states that `Inv` describes.
  pub record IsLocking (Inv : S → Type 0) : Type 0 where
    pub ran_none : (s : S) → m.run s [] ≡ s
    pub ran : (s : S) (e : ℕ × E) (es : List (ℕ × E)) → m.run s (e ∷ es) ≡ m.run (m.step s e) es
    pub kept : (s : S) (e : ℕ × E) → Inv s → Inv (m.step s e)
    pub moved : (s : S) (e : ℕ × E) → m.pc (m.step s e) ≡ update (m.pc s) e.0 (m.next s e)
    pub shift : (s : S) (e : ℕ × E) → Shift (m.flag s) (before s e) (m.flag (m.step s e)) (now s e)
    pub released :
        (s : S) (e : ℕ × E) → before s e ≡ true → now s e ≡ false → m.flag (m.step s e) ≡ false
    pub stored :
        (s : S) (e : ℕ × E)
        → Inv s
        → m.value (m.step s e) ≡ data_after (before s e) (now s e) (m.written s e) (m.value s)

  abbrev pub step_ops : S → ℕ × E → List (ℕ × Op A)
  step_ops s e = op_of e.0 (before s e) (now s e) (m.written s e)

  -- What a schedule does to the lock.
  unfoldable pub ops : S → List (ℕ × E) → List (ℕ × Op A)
  ops s [] = []
  ops s (e ∷ es) = step_ops s e ++ ops (m.step s e) es

  -- The operations are allowed from `l` on; they leave the data and an owner, who is the thread that
  -- has the lock.
  abbrev pub Locked : List (ℕ × Op A) → Lock A → S → Type 0
  Locked os l s =
      (o : Option ℕ) × (apply_all os (some l) ≡ some (o, m.value s))
      × IsOwner m.holds o (m.flag s) (m.pc s)

  abbrev next_owner : S → ℕ × E → Option ℕ → Option ℕ
  next_owner s e o = owner_of o e.0 (before s e) (now s e)

  module _ {Inv : S → Type 0} (v : IsLocking Inv) where
    step-IsOwner :
        (s : S) (e : ℕ × E) (o : Option ℕ)
        → IsOwner m.holds o (m.flag s) (m.pc s)
        → IsOwner m.holds (next_owner s e o) (m.flag (m.step s e)) (m.pc (m.step s e))
    step-IsOwner s e o w =
        subst (IsOwner m.holds (next_owner s e o) (m.flag (m.step s e))) (sym (v.moved s e)) (
          Shift-IsOwner m.holds o (m.flag s) (m.flag (m.step s e)) (m.pc s) e.0 (m.next s e)
            (v.shift s e) (v.released s e) w)

    step_allowed :
        (s : S) (e : ℕ × E) (o : Option ℕ)
        → Inv s
        → IsOwner m.holds o (m.flag s) (m.pc s)
        → apply_all (step_ops s e) (some (o, m.value s))
          ≡ some (next_owner s e o, m.value (m.step s e))
    step_allowed s e o i w =
        turn_allowed m.holds o (m.value s) (m.flag s) (m.flag (m.step s e)) (m.pc s) e.0 (now s e)
          (m.written s e) (v.shift s e) w
        ∙ ap (λ d. some (next_owner s e o, d)) (sym (v.stored s e i))

    -- Every run comes to a sequence of operations that a lock allows.
    pub run-Locked :
        (s : S) (es : List (ℕ × E)) (o : Option ℕ)
        → Inv s
        → IsOwner m.holds o (m.flag s) (m.pc s)
        → Locked (ops s es) (o, m.value s) (m.run s es)
    unfolding ops apply_all
    run-Locked s [] o i w = subst (Locked [] (o, m.value s)) (sym (v.ran_none s)) (o, refl, w)
    run-Locked s (e ∷ es) o i w =
        let rest =
          run-Locked (m.step s e) es (next_owner s e o) (v.kept s e i) (step-IsOwner s e o w) in
        let allowed =
          apply_all-append (step_ops s e) (ops (m.step s e) es) (some (o, m.value s))
          ∙ ap (apply_all (ops (m.step s e) es)) (step_allowed s e o i w)
          ∙ rest.1 in
        subst (Locked (ops s (e ∷ es)) (o, m.value s)) (sym (v.ran s e es))
          (rest.0, allowed, rest.2)
