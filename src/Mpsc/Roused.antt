-- ===== src/Mpsc/Roused.antt =====
-- A receiver that parks without a deadline is woken for a message.
use wasm_safe_thread.Base.{
  ℕ, zero, suc, ◌≡◌, ◌≢◌, ◌∙◌, refl, ◌⊎◌, inl, inr, true, false, [], arith, elem, ltb, ◌==◌,
  Bool-cases,
}
use wasm_safe_thread.Condvar.State.{block}
use wasm_safe_thread.Mpsc.State.{Shared, Pc, Choice, absent, sender, clone}
use wasm_safe_thread.Mpsc.Machine.{System, turn, moved, with_clone, cloned, move, init}
use wasm_safe_thread.Mpsc.Invariant.{Inv}
use wasm_safe_thread.Mpsc.Wakeups.{init_sides, awaiting, taken, coming}
use wasm_safe_thread.Mpsc.Notifying.{is_notifying, notifying_if}
use wasm_safe_thread.Mpsc.Sent.{Covered}
use wasm_safe_thread.Mpsc.Parked.{may_park, Parks, recv-Parks}
use wasm_safe_thread.Mpsc.Rung.{Roused, Rouses, sent-Rouses}

module _ {A : Type 0} where
  -- A turn of the receiver.
  module _ {s : System A} (d : Rouses s) (i : Inv s) (x : Choice A) (ok : may_park x ≡ true) where
    abbrev q : Shared A × Pc A
    q = turn x 0 s.shared (s.pc 0)

    abbrev after : System A
    after = moved s 0 q

    parks : Parks (s.pc 0) q.1 s.shared q.0
    parks =
        recv-Parks x s.shared (s.pc 0) d.lists ok (ground (arith, d.sides 0)) d.way d.quiet
          (i.knows 0)

    -- A receiver that waits is no notifier.
    waits_only :
        (p : Pc A)
        → awaiting block p 0 ≡ true
        → (elem 0 (taken block p) ≡ false) × (coming block p ≡ false)
    waits_only p a = ground arith

    received-Covered : awaiting block q.1 0 ≡ true → Covered block after.pc after.shared 0
    received-Covered a = elim (parks.covers a) [
      | inl (l, e) ↦ inr (inl l)
      | inr (a', same, token, queue) ↦ elim (d.covered a') [
        | inl w ↦ inl (token ∙ w)
        | inr (inl l) ↦ inr (inl (ground (arith, l, same)))
        | inr (inr (zero, l)) ↦ ground (arith, l, waits_only (s.pc 0))
        | inr (inr (suc u, l)) ↦ inr (inr (suc u, ground (arith, l)))
      ]
    ]

    received_alert : awaiting block q.1 0 ≡ true → (q.0.queue ≡ []) ⊎ Roused after.pc after.shared
    received_alert a = elim (parks.covers a) [
      | inl (l, e) ↦ inl e
      | inr (a', same, token, queue) ↦ elim (d.alert a') [
        | inl empty ↦ inl (queue ∙ empty)
        | inr (inl w) ↦ inr (inl (token ∙ w))
        | inr (inr (inl (zero, l))) ↦ ground (arith, l, waits_only (s.pc 0))
        | inr (inr (inl (suc u, l))) ↦ inr (inr (inl (suc u, ground (arith, l))))
        | inr (inr (inr (zero, l))) ↦ ground (arith, l, waits_only (s.pc 0))
        | inr (inr (inr (suc u, l))) ↦ inr (inr (inr (suc u, ground (arith, l))))
      ]
    ]

    received-Rouses : Rouses after
    received-Rouses = record {
      sides = λ u. ground (arith, d.sides u, parks.still);
      lists = parks.lists;
      way = parks.way;
      quiet = parks.quiet;
      covered = received-Covered;
      alert = received_alert;
    }

  -- A clone.
  module _ {s : System A} (d : Rouses s) (u : ℕ) (to : s.pc u ≡ absent) where
    not_receiver : (u == 0) ≡ false
    not_receiver = ground (arith, d.sides u)

    kept_pc : (with_clone s u).pc 0 ≡ s.pc 0
    kept_pc = ground (arith, not_receiver)

    clone-Covered : awaiting block (s.pc 0) 0 ≡ true → Covered block (with_clone s u).pc s.shared 0
    clone-Covered a = elim (d.covered a) [
      | inl w ↦ inl w
      | inr (inl l) ↦ inr (inl l)
      | inr (inr (t, l)) ↦ inr (inr (t, ground (arith, l)))
    ]

    clone_alert :
        awaiting block (s.pc 0) 0 ≡ true
        → (s.shared.queue ≡ []) ⊎ Roused (with_clone s u).pc s.shared
    clone_alert a = elim (d.alert a) [
      | inl empty ↦ inl empty
      | inr (inl w) ↦ inr (inl w)
      | inr (inr (inl (t, l))) ↦ inr (inr (inl (t, ground (arith, l))))
      | inr (inr (inr (t, l))) ↦ inr (inr (inr (t, ground (arith, l))))
    ]

    clone-Rouses : Rouses (with_clone s u)
    clone-Rouses = record {
      sides = λ t. ground (arith, d.sides t, not_receiver);
      lists = d.lists;
      way = rw kept_pc d.way;
      quiet = rw kept_pc d.quiet;
      covered = rw kept_pc clone-Covered;
      alert = rw kept_pc clone_alert;
    }

  cloned-Rouses :
      {s : System A} (d : Rouses s) (u : ℕ) (p q : Pc A) → s.pc u ≡ q → Rouses (cloned p q s u)
  cloned-Rouses d u sender absent to = clone-Rouses d u to
  cloned-Rouses d u p q to = d

  pub move-Rouses :
      (s : System A) (t : ℕ) (x : Choice A)
      → may_park x ≡ true
      → Rouses s
      → Inv s
      → Rouses (move s t x)
  move-Rouses s t (clone u) ok d i = elim (Bool-cases (ltb u s.threads)) [
    | inl real ↦ rw real (cloned-Rouses d u (s.pc t) (s.pc u) refl)
    | inr unreal ↦ rw unreal d
  ]
  move-Rouses s zero x ok d i = received-Rouses d i x ok
  move-Rouses s (suc t) x ok d i = sent-Rouses d i x (suc t) (ground arith)

  pub init-Rouses : (n : ℕ) → Rouses {A = A} (init (suc (suc n)))
  init-Rouses n = record {
    sides = init_sides A;
    lists = (refl, refl, tt);
    way = refl;
    quiet = λ e. refl;
    covered = λ a. ground (arith, a);
    alert = λ a. inl refl;
  }

  pub Rouses-woken :
      {s : System A} (k : ℕ)
      → Rouses s
      → s.shared.queue ≢ []
      → ((u : ℕ) → is_notifying (s.pc u) ≡ false)
      → awaiting block (s.pc 0) k ≡ true
      → s.shared.cond.token k ≡ true
  Rouses-woken {s = s} zero d full quiet a = elim (d.alert a) [
    | inl empty ↦ absurd (full empty)
    | inr (inl w) ↦ w
    | inr (inr (inl (u, l))) ↦ absurd (ground (arith, l, notifying_if block (s.pc u) 0 (quiet u)))
    | inr (inr (inr (u, c))) ↦ absurd (ground (arith, c, notifying_if block (s.pc u) 0 (quiet u)))
  ]
  Rouses-woken {s = s} (suc k) d full quiet a = absurd (zero_only (s.pc 0) a)
    where
      zero_only : (p : Pc A) → awaiting block p (suc k) ≡ true → ⊥
      zero_only p a = ground arith
