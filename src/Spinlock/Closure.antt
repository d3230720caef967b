-- ===== src/Spinlock/Closure.antt =====
-- One call of `with_mut`, with a closure that may panic. The rounds of the spin loop are fuel.
use wasm_safe_thread.Base.{
  ℕ, zero, suc, ◌≡◌, refl, Bool, true, false, Option, none, some, arith, if◌then◌else◌,
}

pub record Spinlock (A : Type 0) : Type 0 where
  pub value : A
  pub locked : Bool

-- `Spinlock::new`.
abbrev pub new : {A : Type 0} → A → Spinlock A
new a = record { value = a; locked = false }

-- How a closure ends, with the data as it leaves them: it returns, or it panics.
pub data Outcome (A R : Type 0) : Type 0 where
  returns : R → A → Outcome A R
  panics : A → Outcome A R

module _ {A R : Type 0} where
  -- What follows the closure: the store that unlocks, or the unwinding, which skips it.
  abbrev pub finish : Outcome A R → Option R × Spinlock A
  finish (returns r a) = (some r, record { value = a; locked = false })
  finish (panics a) = (none, record { value = a; locked = true })

  -- `with_mut`. `none` is a call that still spins after `rounds` swaps; inside, `none` is a panic.
  unfoldable pub with_mut : ℕ → (A → Outcome A R) → Spinlock A → Option (Option R × Spinlock A)
  with_mut zero f s = none
  with_mut (suc rounds) f s =
      let again = with_mut rounds f (record s { locked = true }) in
      if s.locked then again else some (finish (f s.value))

  -- On an unlocked spinlock the first swap succeeds: a closure that returns gives its result, its
  -- data stay, and the spinlock is unlocked again.
  pub with_mut_returns :
      (rounds : ℕ) (f : A → Outcome A R) (a a' : A) (r : R)
      → f a ≡ returns r a'
      → with_mut (suc rounds) f (new a) ≡ some (some r, new a')
  unfolding with_mut
  with_mut_returns rounds f a a' r e = rw e

  spins :
      (rounds : ℕ) (f : A → Outcome A R) (s : Spinlock A)
      → s.locked ≡ true
      → with_mut rounds f s ≡ none
  unfolding with_mut
  spins zero f s h = refl
  spins (suc rounds) f s h = ground (arith, spins rounds f (record s { locked = true }) refl)

module _ {A R Q : Type 0} where
  -- After a closure has panicked the spinlock is not unlocked: every later call spins for ever.
  pub panic_locks_forever :
      (rounds later : ℕ) (f : A → Outcome A R) (g : A → Outcome A Q) (a : A) (s : Spinlock A)
      → with_mut rounds f (new a) ≡ some (none, s)
      → with_mut later g s ≡ none
  unfolding with_mut
  panic_locks_forever zero later f g a s e = cc
  panic_locks_forever (suc rounds) later f g a s e = spins later g s (locked_after (f a) e)
    where
      locked_after : (o : Outcome A R) → some (finish o) ≡ some (none, s) → s.locked ≡ true
      locked_after (returns r a') h = ground arith
      locked_after (panics a') h = ground arith
