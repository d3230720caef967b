-- ===== src/Interleave/Count.antt =====
-- How many of the first `n` threads stand at a program counter that `holds` picks out.
use wasm_safe_thread.Base.{
  ℕ, zero, suc, ◌+◌, ◌≤◌, ◌<◌, ◌≡◌, ◌≢◌, refl, inl, inr, Bool, true, false, arith, ◌==◌, update,
  Bool-cases,
}

abbrev pub one : Bool → ℕ
one true = 1
one false = 0

module _ {Pc : Type 0} (holds : Pc → Bool) where
  unfoldable pub count : ℕ → (ℕ → Pc) → ℕ
  count zero pc = 0
  count (suc n) pc = count n pc + one (holds (pc n))

  count-above :
      (n : ℕ) (pc : ℕ → Pc) (i : ℕ) (p' : Pc) → n ≤ i → count n (update pc i p') ≡ count n pc
  unfolding count
  count-above zero pc i p' h = refl
  count-above (suc n) pc i p' h = ground (arith, count-above n pc i p')

  -- One thread moves from `pc i` to `p'`.
  pub count-update :
      (n : ℕ) (pc : ℕ → Pc) (i : ℕ) (p' : Pc)
      → i < n
      → count n (update pc i p') + one (holds (pc i)) ≡ count n pc + one (holds p')
  unfolding count
  count-update zero pc i p' h = absurd (omega arith)
  count-update (suc n) pc i p' h = elim (Bool-cases (i == n)) [
    | inl last ↦ ground (arith, count-above n pc i p')
    | inr below ↦ ground (arith, count-update n pc i p')
  ]

  pub one-le-count : (n : ℕ) (pc : ℕ → Pc) (i : ℕ) → i < n → one (holds (pc i)) ≤ count n pc
  unfolding count
  one-le-count zero pc i h = absurd (omega arith)
  one-le-count (suc n) pc i h = elim (Bool-cases (i == n)) [
    | inl last ↦ ground arith
    | inr below ↦ ground (arith, one-le-count n pc i)
  ]

  -- Two threads count twice.
  pub two-le-count :
      (n : ℕ) (pc : ℕ → Pc) (i j : ℕ)
      → i < n
      → j < n
      → i ≢ j
      → holds (pc i) ≡ true
      → holds (pc j) ≡ true
      → 2 ≤ count n pc
  unfolding count
  two-le-count zero pc i j hi hj ne a b = absurd (omega arith)
  two-le-count (suc n) pc i j hi hj ne a b = elim (Bool-cases (i == n)) [
    | inl last ↦ ground (arith, one-le-count n pc j)
    | inr below ↦ elim (Bool-cases (j == n)) [
      | inl last ↦ ground (arith, one-le-count n pc i)
      | inr below' ↦ ground (arith, two-le-count n pc i j)
    ]
  ]

  pub count-none : (n : ℕ) (pc : ℕ → Pc) → ((i : ℕ) → holds (pc i) ≡ false) → count n pc ≡ 0
  unfolding count
  count-none zero pc h = refl
  count-none (suc n) pc h = ground (arith, count-none n pc h, h n)

  pub count_bound : (n : ℕ) (pc : ℕ → Pc) → count n pc ≤ n
  unfolding count
  count_bound zero pc = omega arith
  count_bound (suc n) pc = ground (arith, count_bound n pc)
