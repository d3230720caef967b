-- ===== src/Rwlock/Solo.antt =====
-- One thread of a read-write lock runs while the others stand still.
use wasm_safe_thread.Base.{ℕ, ◌≡◌, refl, List, [], ◌∷◌, ◌++◌, arith, update, ◌<◌}
use wasm_safe_thread.Rwlock.State.{Mem, Pc, Choice}
use wasm_safe_thread.Rwlock.Machine.{System, turn, step, run}

module _ {A : Type 0} where
  -- Thread `t` takes one turn for each choice.
  unfoldable pub solo : ℕ → List (Choice A) → Mem A × Pc A → Mem A × Pc A
  solo t [] r = r
  solo t (c ∷ cs) r = solo t cs (turn c t r.0 r.1)

  pub solo-append :
      (t : ℕ) (cs ds : List (Choice A)) (r : Mem A × Pc A)
      → solo t (cs ++ ds) r ≡ solo t ds (solo t cs r)
  unfolding solo
  solo-append t [] ds r = refl
  solo-append t (c ∷ cs) ds r = solo-append t cs ds (turn c t r.0 r.1)

  -- The same turns in the system.
  abbrev pub only : ℕ → List (Choice A) → List (ℕ × Choice A)
  only t [] = []
  only t (c ∷ cs) = (t, c) ∷ only t cs

  pub run-only :
      (t : ℕ) (cs : List (Choice A)) (s : System A)
      → t < s.threads
      → ((run s (only t cs)).threads ≡ s.threads)
        × ((run s (only t cs)).mem ≡ (solo t cs (s.mem, s.pc t)).0)
        × ((u : ℕ) → (run s (only t cs)).pc u ≡ (update s.pc t (solo t cs (s.mem, s.pc t)).1) u)
  unfolding solo run step
  run-only t [] s real = (refl, refl, λ u. ground arith)
  run-only t (c ∷ cs) s real =
      let s' : System A = step s (t, c) in
      let ih = run-only t cs s' (ground arith) in
      (ground (arith, ih.0), ground (arith, ih.1), λ u. ground (arith, ih.2 u))
