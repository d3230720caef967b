-- ===== src/Mpsc/Polled.antt =====
-- A receiver that waits by polling a flag or in an async task is woken for a message.
use wasm_safe_thread.Base.{
  ℕ, zero, suc, ◌≡◌, ◌≢◌, refl, inl, inr, true, false, [], arith, ltb, Bool-cases,
}
use wasm_safe_thread.Condvar.State.{How, new, spin, block, async, list, woken}
use wasm_safe_thread.Condvar.Roles.{same}
use wasm_safe_thread.Mpsc.State.{Choice, clone}
use wasm_safe_thread.Mpsc.Machine.{System, move, init, handles}
use wasm_safe_thread.Mpsc.Invariant.{Inv}
use wasm_safe_thread.Mpsc.Wakeups.{init_sides, allowed, awaiting, taken}
use wasm_safe_thread.Mpsc.Taken.{received-Delivers, cloned-Delivers}
use wasm_safe_thread.Mpsc.Notifying.{is_notifying, notifying_if}
use wasm_safe_thread.Mpsc.Sent.{Delivers, sent-Delivers}

no_list : (h : How) → list h new ≡ []
no_list spin = refl
no_list block = refl
no_list async = refl

unwoken : (h : How) (k : ℕ) → woken h new k ≡ false
unwoken spin k = refl
unwoken block k = refl
unwoken async k = refl

module _ {A : Type 0} where
  pub move-Delivers :
      (h : How) (s : System A) (t : ℕ) (x : Choice A)
      → same h block ≡ false
      → allowed h x ≡ true
      → Delivers h s
      → Inv s
      → Delivers h (move s t x)
  move-Delivers h s t (clone u) way ok d i = elim (Bool-cases (ltb u s.threads)) [
    | inl real ↦ rw real (cloned-Delivers d u (s.pc t) (s.pc u) refl)
    | inr unreal ↦ rw unreal d
  ]
  move-Delivers h s zero x way ok d i = received-Delivers way d i x ok
  move-Delivers h s (suc t) x way ok d i = sent-Delivers way d i x (suc t) (ground arith)

  pub init-Delivers :
      (h : How) (n : ℕ) → same h block ≡ false → Delivers {A = A} h (init (suc (suc n)))
  init-Delivers h n way = record {
    sides = init_sides A;
    nobody = (refl, λ e. refl, λ e. refl);
    way = refl;
    untaken = refl;
    single = inl (no_list h);
    numbers = record { fresh = λ k le. unwoken h k; listed = λ k e. ground (arith, e, no_list h) };
    pended = λ u k e. ground (arith, e, none_taken u);
    quiet = λ e. refl;
    covered = λ k a. ground (arith, a);
    alert = λ k e. inl refl;
  }
    where
      none_taken : (u : ℕ) → taken {A = A} h (handles u) ≡ []
      none_taken zero = refl
      none_taken (suc zero) = refl
      none_taken (suc (suc u)) = refl

  pub Delivers-woken :
      {h : How} {s : System A} (k : ℕ)
      → Delivers h s
      → s.shared.queue ≢ []
      → ((u : ℕ) → is_notifying (s.pc u) ≡ false)
      → awaiting h (s.pc 0) k ≡ true
      → woken h s.shared.cond k ≡ true
  Delivers-woken {h = h} {s = s} k d full quiet a = elim (d.covered k a) [
    | inl w ↦ w
    | inr (inl l) ↦ elim (d.alert k l) [
      | inl empty ↦ absurd (full empty)
      | inr (u, c) ↦ absurd (ground (arith, c, notifying_if h (s.pc u) k (quiet u)))
    ]
    | inr (inr (u, l)) ↦ absurd (ground (arith, l, notifying_if h (s.pc u) k (quiet u)))
  ]
