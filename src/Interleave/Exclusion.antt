-- ===== src/Interleave/Exclusion.antt =====
-- Exclusive ownership of a flag by the threads of a family.
use wasm_safe_thread.Base.{ℕ, ◌≡◌, Bool, true, false, arith, update, Bool-cases}

-- How a step may change a flag `l`, given whether its thread owns the flag before and after.
pub record Shift (l h l' h' : Bool) : Type 0 where
  pub gain : h ≡ false → h' ≡ true → (l ≡ false) × (l' ≡ true)
  pub stay : h ≡ false → h' ≡ false → l' ≡ l
  pub keep : h ≡ true → h' ≡ true → l' ≡ l

module _ {Pc : Type 0} (holds : Pc → Bool) where
  -- An owned flag is set, and it has one owner.
  pub record Excl (pc : ℕ → Pc) (l : Bool) : Type 0 where
    pub owned : (t : ℕ) → holds (pc t) ≡ true → l ≡ true
    pub unique : (t u : ℕ) → holds (pc t) ≡ true → holds (pc u) ≡ true → t ≡ u

  pub Shift-Excl :
      {pc : ℕ → Pc} {l l' : Bool} (i : ℕ) (p' : Pc)
      → Shift l (holds (pc i)) l' (holds p')
      → Excl pc l
      → Excl (update pc i p') l'
  Shift-Excl {pc} {l} {l'} i p' s e = record {
    owned = λ t h. ground (arith, e.owned t, e.owned i, e.unique t i, Bool-cases (holds p'));
    unique =
        λ t u h k. ground (arith, e.owned t, e.owned u, e.unique t u, e.unique t i, e.unique u i);
  }
