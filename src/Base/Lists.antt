-- ===== src/Base/Lists.antt =====
-- Lists as Rust's `Vec` and `VecDeque` use them, over native numbers.
use Prim.Native.Nat.{ℕ, zero, suc, ◌+◌}
use mathlib.Core.Path.{◌≡◌, refl}
use mathlib.Core.Bool.{Bool, false, ◌||◌}
use mathlib.Core.Option.{Option, none, some}
use mathlib.Core.List.{List, [], ◌∷◌, ◌++◌}
use native.Mathlib.Omega.{arith}
use wasm_safe_thread.Base.Tests.{◌==◌, if◌then◌else◌}

module _ {ℓ} {A : Type ℓ} where
  abbrev pub length : List A → ℕ
  length [] = 0
  length (x ∷ xs) = suc (length xs)

  pub length-append : (xs ys : List A) → length (xs ++ ys) ≡ length xs + length ys
  length-append [] ys = omega arith
  length-append (x ∷ xs) ys = omega (arith, length-append xs ys)

  -- `Vec::push` appends at the end.
  abbrev pub push : List A → A → List A
  push [] a = a ∷ []
  push (x ∷ xs) a = x ∷ push xs a

-- Whether a number is in a list.
abbrev pub elem : ℕ → List ℕ → Bool
elem k [] = false
elem k (x ∷ xs) = x == k || elem k xs

pub elem-push : (k x : ℕ) (xs : List ℕ) → elem k (push xs x) ≡ (elem k xs || x == k)
elem-push k x [] = ground arith
elem-push k x (y ∷ ys) = ground (arith, elem-push k x ys)

module _ {ℓ} {A : Type ℓ} where
  pub push-append : (xs : List A) (a : A) → push xs a ≡ xs ++ a ∷ []
  push-append [] a = refl
  push-append (x ∷ xs) a = ground (arith, push-append xs a)

  -- `iter().position(p)`.
  unfoldable pub position : (A → Bool) → List A → Option ℕ
  position p [] = none
  position p (x ∷ xs) =
      let rest = position p xs in
      if p x then some 0 else elim rest [ none ↦ none | some i ↦ some (suc i) ]

  -- `v[i] = a`; the callers' index is in bounds.
  abbrev pub set : List A → ℕ → A → List A
  set [] i a = []
  set (x ∷ xs) zero a = a ∷ xs
  set (x ∷ xs) (suc i) a = x ∷ set xs i a

  -- `Vec::remove(i)`; the callers' index is in bounds.
  abbrev pub remove_at : List A → ℕ → List A
  remove_at [] i = []
  remove_at (x ∷ xs) zero = xs
  remove_at (x ∷ xs) (suc i) = x ∷ remove_at xs i

  -- The last element of a list that begins with `x`, and the rest.
  unfoldable pub pop_last : A → List A → A × List A
  pop_last x [] = (x, [])
  pop_last x (y ∷ ys) = let r = pop_last y ys in (r.0, x ∷ r.1)

  -- `Vec::pop`.
  abbrev pub pop : List A → Option (A × List A)
  pop [] = none
  pop (x ∷ xs) = some (pop_last x xs)

  -- `pop` undoes `push`.
  pub pop-push : (xs : List A) (a : A) → pop (push xs a) ≡ some (a, xs)
  unfolding pop_last
  pop-push [] a = refl
  pop-push (x ∷ []) a = refl
  pop-push (x ∷ y ∷ ys) a = ground (arith, pop-push (y ∷ ys) a)

pub elem-pop_last :
    (k x : ℕ) (xs : List ℕ) → elem k (x ∷ xs) ≡ ((pop_last x xs).0 == k || elem k (pop_last x xs).1)
unfolding pop_last
elem-pop_last k x [] = refl
elem-pop_last k x (y ∷ ys) = ground (arith, elem-pop_last k y ys)
