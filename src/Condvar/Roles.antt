-- ===== src/Condvar/Roles.antt =====
-- What a caller of a condition variable has to do with one of its three lists.
use wasm_safe_thread.Base.{
  ℕ, suc, ◌≡◌, ◌≢◌, ◌<◌, ◌⊎◌, Bool, true, false, List, [], ◌∷◌, ◌==◌, ◌&&◌, arith, elem,
}
use wasm_safe_thread.Condvar.State.{How, spin, block, async, Cond, list, woken}
use wasm_safe_thread.Condvar.Notify.{wake, wake_all}
use wasm_safe_thread.Condvar.Wait.{
  WaitPc, register, release, check, sleep, expired, await_flag, remove,
}
use wasm_safe_thread.Condvar.Machine.{Pc, waiting, notifying, System}

abbrev pub same : How → How → Bool
same spin spin = true
same block block = true
same async async = true
same _ _ = false

-- Between its registration and its waking a thread is registered: under its own number if it parks,
-- and else under that of its flag or continuation.
abbrev pub goes_by : How → ℕ → ℕ → ℕ
goes_by block t j = t
goes_by spin t j = j
goes_by async t j = j

abbrev pub registered : How → ℕ → WaitPc → ℕ → Bool
registered h t (release j) k = goes_by h t j == k
registered h t (check j) k = goes_by h t j == k
registered h t (sleep j) k = goes_by h t j == k
registered h t (expired j) k = goes_by h t j == k
registered h t (await_flag j) k = goes_by h t j == k
registered h t _ k = false

abbrev pub awaits : How → ℕ → Pc → ℕ → Bool
awaits h t (waiting h' timed p) k = same h h' && registered h t p k
awaits h t _ k = false

abbrev pub only_if : Bool → List ℕ → List ℕ
only_if true ks = ks
only_if false ks = []

-- The numbers that a notifier has taken out of the list and has not woken.
abbrev pub pending : How → Pc → List ℕ
pending h (notifying held (wake h' k)) = only_if (same h h') (k ∷ [])
pending h (notifying held (wake_all h' ks)) = only_if (same h h') ks
pending h _ = []

-- The number of a flag or of a continuation is below the next new one.
abbrev pub Numbered : How → ℕ → ℕ → Type 0
Numbered block next k = Unit {0}
Numbered spin next k = k < next
Numbered async next k = k < next

-- A waiter has been woken, or is in the list, or a notifier is about to wake it.
abbrev pub Covered : How → (ℕ → Pc) → Cond → ℕ → Type 0
Covered h pc c k =
    (woken h c k ≡ true)
    ⊎ (elem k (list h c) ≡ true)
    ⊎ ((u : ℕ) × (elem k (pending h (pc u)) ≡ true))

pub record Inv (h : How) (s : System) : Type 0 where
  pub covered : (t k : ℕ) → awaits h t (s.pc t) k ≡ true → Covered h s.pc s.cond k
  pub numbered : (t k : ℕ) → awaits h t (s.pc t) k ≡ true → Numbered h s.cond.next k
  pub unique : (t u k : ℕ) → awaits h t (s.pc t) k ≡ true → awaits h u (s.pc u) k ≡ true → t ≡ u

-- A number that is new at a registration.
abbrev pub New : How → Cond → Cond → ℕ → Type 0
New block c c' k = Unit {0}
New spin c c' k = (k ≡ c.next) × (c'.next ≡ suc c.next)
New async c c' k = (k ≡ c.next) × (c'.next ≡ suc c.next)

-- What a turn of thread `i` from `p` to `p'` guarantees.
pub record Guarantee (h : How) (i : ℕ) (p p' : Pc) (c c' : Cond) : Type 0 where
  pub stays :
      (k : ℕ)
      → awaits h i p' k ≡ true
      → awaits h i p k ≡ true
      → ((woken h c k ≡ true → woken h c' k ≡ true)
          × (elem k (list h c) ≡ true → elem k (list h c') ≡ true))
  pub starts :
      (k : ℕ)
      → awaits h i p' k ≡ true
      → awaits h i p k ≡ false
      → (elem k (list h c') ≡ true) × New h c c' k
  pub kept :
      (u k : ℕ) (q : Pc) → u ≢ i → awaits h u q k ≡ true → woken h c k ≡ true → woken h c' k ≡ true
  pub queued :
      (k : ℕ)
      → elem k (list h c) ≡ true
      → (elem k (list h c') ≡ true) ⊎ (elem k (pending h p') ≡ true) ⊎ (awaits h i p k ≡ true)
  pub pended :
      (k : ℕ) → elem k (pending h p) ≡ true → (elem k (pending h p') ≡ true) ⊎ (woken h c' k ≡ true)
  pub counts : (c'.next ≡ c.next) ⊎ (c'.next ≡ suc c.next)

pub elem-remove :
    (k j : ℕ) (xs : List ℕ) → (j == k) ≡ false → elem k xs ≡ true → elem k (remove j xs) ≡ true
elem-remove k j [] ne h = h
elem-remove k j (x ∷ xs) ne h = ground (arith, elem-remove k j xs ne)

-- A parked thread is registered under its own number alone.
pub awaits-block : (t k : ℕ) (p : Pc) → awaits block t p k ≡ true → t ≡ k
awaits-block t k (waiting h timed register) a = ground arith
awaits-block t k (waiting h timed p) a = ground arith
awaits-block t k p a = cc
