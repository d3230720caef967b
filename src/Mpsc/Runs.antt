-- ===== src/Mpsc/Runs.antt =====
-- What every turn that a schedule allows keeps, every such schedule keeps.
use wasm_safe_thread.Base.{
  ℕ, ◌≡◌, inl, inr, Bool, true, List, [], ◌∷◌, ◌&&◌, arith, ltb, Bool-cases,
}
use wasm_safe_thread.Mpsc.State.{Choice}
use wasm_safe_thread.Mpsc.Machine.{System, move, step, run}
use wasm_safe_thread.Mpsc.Invariant.{Inv, step-Inv}

module _ {A : Type 0} (may : Choice A → Bool) where
  -- Every choice of the schedule is allowed.
  abbrev pub every : List (ℕ × Choice A) → Bool
  every [] = true
  every ((t, x) ∷ es) = may x && every es

  module _ (P : System A → Type 0)
      (keep : (s : System A) (t : ℕ) (x : Choice A)
        → may x ≡ true
        → P s
        → Inv s
        → P (move s t x)) where
    step_keeps :
        (s : System A) (t : ℕ) (x : Choice A) → may x ≡ true → P s → Inv s → P (step s (t, x))
    unfolding step
    step_keeps s t x ok v i = elim (Bool-cases (ltb t s.threads)) [
      | inl real ↦ rw real (keep s t x ok v i)
      | inr unreal ↦ rw unreal v
    ]

    pub run_keeps :
        (s : System A) (es : List (ℕ × Choice A)) → every es ≡ true → P s → Inv s → P (run s es)
    unfolding run
    run_keeps s [] ok v i = v
    run_keeps s ((t, x) ∷ es) ok v i =
        run_keeps (step s (t, x)) es (ground (arith, ok))
          (step_keeps s t x (ground (arith, ok)) v i) (step-Inv s (t, x) i)
