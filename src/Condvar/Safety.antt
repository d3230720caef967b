-- ===== src/Condvar/Safety.antt =====
-- What holds of a condition variable after any interleaving of its callers.
use wasm_safe_thread.Base.{
  ℕ, ◌≡◌, ◌≢◌, refl, ◌⊎◌, inl, inr, Bool, true, false, List, ◌==◌, arith, elem, update, Bool-cases,
}
use wasm_safe_thread.Condvar.State.{How, spin, block, async, Cond, list, woken}
use wasm_safe_thread.Condvar.Machine.{Pc, Choice, System, step, run, init, run_inv, notifying}
use wasm_safe_thread.Condvar.Roles.{
  awaits-block, awaits, pending, Numbered, Covered, New, Inv, Guarantee,
}
use wasm_safe_thread.Condvar.Covered.{turn-Guarantees}

module _ {h : How} {s : System} (v : Inv h s) (i : ℕ) (p' : Pc) (c' : Cond)
    (g : Guarantee h i (s.pc i) p' s.cond c') where
  abbrev pc' : ℕ → Pc
  pc' = update s.pc i p'

  -- A number that was covered still is, unless its own waiter gave it up.
  step_Covered :
      (k : ℕ)
      → (woken h s.cond k ≡ true → woken h c' k ≡ true)
      → ((elem k (list h s.cond) ≡ true → awaits h i (s.pc i) k ≡ true → elem k (list h c') ≡ true))
      → Covered h s.pc s.cond k
      → Covered h pc' c' k
  step_Covered k keep mine (inl w) = inl (keep w)
  step_Covered k keep mine (inr (inl q)) = elim (g.queued k q) [
    | inl q' ↦ inr (inl q')
    | inr (inl pend) ↦ inr (inr (i, ground arith))
    | inr (inr own) ↦ inr (inl (mine q own))
  ]
  step_Covered k keep mine (inr (inr (u, pend))) = elim (Bool-cases (i == u)) [
    | inl same ↦ elim (g.pended k (ground arith)) [
      | inl pend' ↦ inr (inr (i, ground arith))
      | inr w ↦ inl w
    ]
    | inr other ↦ inr (inr (u, ground arith))
  ]

  self_Covered : (k : ℕ) → awaits h i p' k ≡ true → Covered h pc' c' k
  self_Covered k a = elim (Bool-cases (awaits h i (s.pc i) k)) [
    | inl old ↦
        let (keep, queue) = g.stays k a old in
        step_Covered k keep (λ q own. queue q) (v.covered i k old)
    | inr new ↦ inr (inl (g.starts k a new).0)
  ]

  other_Covered : (t k : ℕ) → i ≢ t → awaits h t (s.pc t) k ≡ true → Covered h pc' c' k
  other_Covered t k ne a =
      step_Covered k (g.kept t k (s.pc t) (λ e. ne (ground arith)) a)
        (λ q own. absurd (ne (v.unique i t k own a))) (v.covered t k a)

  pub update_Covered : (t k : ℕ) → awaits h t (pc' t) k ≡ true → Covered h pc' c' k
  update_Covered t k a = elim (Bool-cases (i == t)) [
    | inl same ↦ self_Covered k (ground arith)
    | inr other ↦ other_Covered t k (ground arith) (ground arith)
  ]

  Numbered-mono : (k : ℕ) → Numbered h s.cond.next k → Numbered h c'.next k
  Numbered-mono k n = ground (arith, g.counts)

  Numbered-New : (k : ℕ) → New h s.cond c' k → Numbered h c'.next k
  Numbered-New k n = ground arith

  pub update_Numbered : (t k : ℕ) → awaits h t (pc' t) k ≡ true → Numbered h c'.next k
  update_Numbered t k a = elim (Bool-cases (i == t)) [
    | inl same ↦ elim (Bool-cases (awaits h i (s.pc i) k)) [
      | inl old ↦ Numbered-mono k (v.numbered i k old)
      | inr new ↦ Numbered-New k (g.starts k (ground arith) new).1
    ]
    | inr other ↦ Numbered-mono k (v.numbered t k (ground arith))
  ]

apart :
    (h : How) (c c' : Cond) (i u k : ℕ) (p' q : Pc)
    → New h c c' k
    → Numbered h c.next k
    → awaits h i p' k ≡ true
    → awaits h u q k ≡ true
    → i ≡ u
apart block c c' i u k p' q new old a b =
    ground (arith, awaits-block i k p' a, awaits-block u k q b)
apart spin c c' i u k p' q new old a b = absurd (omega arith)
apart async c c' i u k p' q new old a b = absurd (omega arith)

module _ {h : How} {s : System} (v : Inv h s) (i : ℕ) (p' : Pc) (c' : Cond)
    (g : Guarantee h i (s.pc i) p' s.cond c') where
  unique_self : (u k : ℕ) → awaits h i p' k ≡ true → awaits h u (s.pc u) k ≡ true → i ≡ u
  unique_self u k a b = elim (Bool-cases (awaits h i (s.pc i) k)) [
    | inl old ↦ v.unique i u k old b
    | inr new ↦ apart h s.cond c' i u k p' (s.pc u) (g.starts k a new).1 (v.numbered u k b) a b
  ]

  update_unique :
      (t u k : ℕ)
      → awaits h t (update s.pc i p' t) k ≡ true
      → awaits h u (update s.pc i p' u) k ≡ true
      → t ≡ u
  update_unique t u k a b = elim (Bool-cases (i == t)) [
    | inl it ↦ elim (Bool-cases (i == u)) [
      | inl iu ↦ ground arith
      | inr ne ↦ ground (arith, unique_self u k (ground arith) (ground arith))
    ]
    | inr it' ↦ elim (Bool-cases (i == u)) [
      | inl iu ↦ ground (arith, unique_self t k (ground arith) (ground arith))
      | inr ne ↦ v.unique t u k (ground arith) (ground arith)
    ]
  ]

  pub Guarantee-Inv : Inv h (record { cond = c'; pc = update s.pc i p' })
  Guarantee-Inv = record {
    covered = update_Covered v i p' c' g;
    numbered = update_Numbered v i p' c' g;
    unique = update_unique;
  }

step-Inv : (h : How) (s : System) (e : ℕ × Choice) → Inv h s → Inv h (step s e)
unfolding step
step-Inv h s (t, x) v = Guarantee-Inv v t _ _ (turn-Guarantees h x t s.cond (s.pc t))

init-Inv : (h : How) → Inv h init
init-Inv h = record {
  covered = λ t k a. ground arith;
  numbered = λ t k a. ground arith;
  unique = λ t u k a b. ground arith;
}

pub run-Inv : (h : How) (es : List (ℕ × Choice)) → Inv h (run init es)
run-Inv h es = run_inv (Inv h) (step-Inv h) init es (init-Inv h)

-- The thread is in `notify_one` or `notify_all`.
abbrev pub is_notifying : Pc → Bool
is_notifying (notifying _ _) = true
is_notifying _ = false

quiet : (h : How) (k : ℕ) (p : Pc) → is_notifying p ≡ false → elem k (pending h p) ≡ false
quiet h k (notifying held p) e = cc
quiet h k p e = refl

-- After any interleaving of waits, timeouts, spurious wake-ups and notifications, while no thread is
-- in `notify_one` or `notify_all`, each thread that waits after its registration has been woken or
-- is still in the list, where the next notification finds it.
pub no_waiter_forgotten :
    (h : How) (es : List (ℕ × Choice)) (t k : ℕ)
    → ((u : ℕ) → is_notifying ((run init es).pc u) ≡ false)
    → awaits h t ((run init es).pc t) k ≡ true
    → (woken h (run init es).cond k ≡ true) ⊎ (elem k (list h (run init es).cond) ≡ true)
no_waiter_forgotten h es t k still a = elim ((run-Inv h es).covered t k a) [
  | inl w ↦ inl w
  | inr (inl q) ↦ inr q
  | inr (inr (u, pend)) ↦ cc (quiet h k ((run init es).pc u) (still u))
]

-- After any interleaving, two threads never wait under one number.
pub waiters_are_distinct :
    (h : How) (es : List (ℕ × Choice)) (t u k : ℕ)
    → awaits h t ((run init es).pc t) k ≡ true
    → awaits h u ((run init es).pc u) k ≡ true
    → t ≡ u
waiters_are_distinct h es t u k = (run-Inv h es).unique t u k
