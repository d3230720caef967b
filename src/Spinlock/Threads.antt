-- ===== src/Spinlock/Threads.antt =====
-- Any number of threads that call `with_mut` on one spinlock, an access at a time: the swap, the
-- read and the write of the closure, and the store.
use wasm_safe_thread.Base.{ℕ, Bool, true, false, List, [], ◌∷◌, if◌then◌else◌, update}

-- Before the swap; inside, before the closure reads; before it writes what it has read; and before
-- the store that unlocks.
pub data Pc (A : Type 0) : Type 0 where
  idle : Pc A
  swap enter : (f : A → A) → Pc A
  commit : (f : A → A) (a : A) → Pc A
  leave : Pc A

pub record Mem (A : Type 0) : Type 0 where
  pub value : A
  pub locked : Bool

-- An idle thread may call `with_mut` with a closure.
pub data Choice (A : Type 0) : Type 0 where
  go : Choice A
  with_mut : (A → A) → Choice A

pub record System (A : Type 0) : Type 0 where
  pub mem : Mem A
  pub pc : ℕ → Pc A

module _ {A : Type 0} where
  abbrev pub begin : Choice A → Pc A
  begin (with_mut f) = swap f
  begin go = idle

  unfoldable pub turn : Choice A → Mem A → Pc A → Mem A × Pc A
  turn c m idle = (m, begin c)
  turn c m (swap f) = (record m { locked = true }, if m.locked then swap f else enter f)
  turn c m (enter f) = (m, commit f m.value)
  turn c m (commit f a) = (record m { value = f a }, leave)
  turn c m leave = (record m { locked = false }, idle)

  unfoldable pub step : System A → ℕ × Choice A → System A
  step s (t, c) = let r = turn c s.mem (s.pc t) in record { mem = r.0; pc = update s.pc t r.1 }

  abbrev pub init : A → System A
  init a = record { mem = record { value = a; locked = false }; pc = λ _. idle }

  unfoldable pub run : System A → List (ℕ × Choice A) → System A
  run s [] = s
  run s (e ∷ es) = run (step s e) es

  -- The closure that a turn of this thread writes by, if it writes.
  abbrev pub committed : Pc A → List (A → A) → List (A → A)
  committed (commit f a) fs = f ∷ fs
  committed _ fs = fs

  -- The closures that a schedule commits, in order.
  unfoldable pub commits : System A → List (ℕ × Choice A) → List (A → A)
  commits s [] = []
  commits s ((t, c) ∷ es) = committed (s.pc t) (commits (step s (t, c)) es)
