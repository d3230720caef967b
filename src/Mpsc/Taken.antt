-- ===== src/Mpsc/Taken.antt =====
-- The turns of the receiver, and a clone, keep what `Sent` says of the receiver's registration.
use wasm_safe_thread.Base.{
  ℕ, zero, suc, ◌≡◌, ◌<◌, ◌⊎◌, inl, inr, true, false, [], arith, elem, ◌==◌, Bool-cases,
}
use wasm_safe_thread.Condvar.State.{How, block, list}
use wasm_safe_thread.Condvar.Roles.{same}
use wasm_safe_thread.Mpsc.State.{Shared, Pc, Choice, absent, sender}
use wasm_safe_thread.Mpsc.Machine.{System, turn, moved, with_clone, cloned}
use wasm_safe_thread.Mpsc.Invariant.{Inv}
use wasm_safe_thread.Mpsc.Wakeups.{
  is_receiver, allowed, awaiting, taken, coming, Receives, recv-Receives,
}
use wasm_safe_thread.Mpsc.Sent.{Delivers, Covered}

module _ {A : Type 0} where
  -- A turn of the receiver.
  module _ {h : How} {s : System A} (way : same h block ≡ false) (d : Delivers h s) (i : Inv s)
      (x : Choice A) (ok : allowed h x ≡ true) where
    abbrev r : Shared A × Pc A
    r = turn x 0 s.shared (s.pc 0)

    abbrev s' : System A
    s' = moved s 0 r

    receives : Receives h (s.pc 0) r.1 s.shared r.0
    receives =
        recv-Receives h x 0 s.shared (s.pc 0) way ok d.nobody d.single d.numbers d.untaken
          (ground (arith, d.sides 0)) d.way d.quiet (i.knows 0)

    received_sides : (u : ℕ) → is_receiver (s'.pc u) ≡ (u == 0)
    received_sides u = ground (arith, d.sides u, receives.still)

    still_out :
        (k : ℕ)
        → (k < s.shared.cond.next) × (elem k (list h s.shared.cond) ≡ false)
        → (k < s'.shared.cond.next) × (elem k (list h s'.shared.cond) ≡ false)
    still_out k (lt, out) = elim (Bool-cases (elem k (list h r.0.cond))) [
      | inl e ↦ elim (receives.enters k e) [
        | inl e' ↦ absurd (ground (arith, e', out))
        | inr (empty, fresh) ↦ absurd (omega (arith, fresh, lt))
      ]
      | inr out' ↦ (omega (arith, lt, receives.counts), out')
    ]

    received_pended :
        (u k : ℕ)
        → elem k (taken h (s'.pc u)) ≡ true
        → (k < s'.shared.cond.next) × (elem k (list h s'.shared.cond) ≡ false)
    received_pended zero k e = ground (arith, receives.untaken)
    received_pended (suc u) k e = still_out k (d.pended (suc u) k (ground (arith, e)))

    received-Covered : (k : ℕ) → awaiting h (s'.pc 0) k ≡ true → Covered h s'.pc s'.shared k
    received-Covered k a = elim (receives.covers k a) [
      | inl e ↦ inr (inl e)
      | inr (a', out, keeps) ↦ elim (d.covered k a') [
        | inl w ↦ inl (keeps w)
        | inr (inl l) ↦ ground (arith, l, out)
        | inr (inr (zero, l)) ↦ ground (arith, l, d.untaken)
        | inr (inr (suc u, l)) ↦ inr (inr (suc u, ground (arith, l)))
      ]
    ]

    received_alert :
        (k : ℕ)
        → elem k (list h s'.shared.cond) ≡ true
        → (s'.shared.queue ≡ []) ⊎ ((u : ℕ) × (coming h (s'.pc u) ≡ true))
    received_alert k e = elim (receives.enters k e) [
      | inl e' ↦ elim (d.alert k e') [
        | inl empty ↦ inl (receives.drains empty)
        | inr (zero, c) ↦ ground (arith, c, d.sides 0)
        | inr (suc u, c) ↦ inr (suc u, ground (arith, c))
      ]
      | inr (empty, fresh) ↦ inl empty
    ]

    pub received-Delivers : Delivers h s'
    received-Delivers = record {
      sides = received_sides;
      nobody = receives.nobody;
      way = receives.way;
      untaken = receives.untaken;
      single = receives.single;
      numbers = receives.numbers;
      pended = received_pended;
      quiet = receives.quiet;
      covered = received-Covered;
      alert = received_alert;
    }

  -- A clone.
  module _ {h : How} {s : System A} (d : Delivers h s) (u : ℕ) (to : s.pc u ≡ absent) where
    not_receiver : (u == 0) ≡ false
    not_receiver = ground (arith, d.sides u)

    kept_pc : (with_clone s u).pc 0 ≡ s.pc 0
    kept_pc = ground (arith, not_receiver)

    clone-Covered :
        (k : ℕ) → awaiting h (s.pc 0) k ≡ true → Covered h (with_clone s u).pc s.shared k
    clone-Covered k a = elim (d.covered k a) [
      | inl w ↦ inl w
      | inr (inl l) ↦ inr (inl l)
      | inr (inr (t, l)) ↦ inr (inr (t, ground (arith, l)))
    ]

    clone_alert :
        (k : ℕ)
        → elem k (list h s.shared.cond) ≡ true
        → (s.shared.queue ≡ []) ⊎ ((t : ℕ) × (coming h ((with_clone s u).pc t) ≡ true))
    clone_alert k e = elim (d.alert k e) [
      | inl empty ↦ inl empty
      | inr (t, c) ↦ inr (t, ground (arith, c))
    ]

    clone-Delivers : Delivers h (with_clone s u)
    clone-Delivers = record {
      sides = λ t. ground (arith, d.sides t, not_receiver);
      nobody = d.nobody;
      way = rw kept_pc d.way;
      untaken = rw kept_pc d.untaken;
      single = rw kept_pc d.single;
      numbers = d.numbers;
      pended = λ t k e. ground (arith, d.pended t k);
      quiet = rw kept_pc d.quiet;
      covered = λ k a. clone-Covered k (ground (arith, kept_pc));
      alert = clone_alert;
    }

  pub cloned-Delivers :
      {h : How} {s : System A} (d : Delivers h s) (u : ℕ) (p q : Pc A)
      → s.pc u ≡ q
      → Delivers h (cloned p q s u)
  cloned-Delivers d u sender absent to = clone-Delivers d u to
  cloned-Delivers d u p q to = d
