-- ===== src/Mpsc/Sources.antt =====
-- Where the messages of a channel come from: the calls of `send` in a schedule.
use wasm_safe_thread.Base.{
  ℕ, zero, suc, subst, ◌≡◌, List, [], ◌∷◌, arith, ltb, Bool-cases, inl, inr, push,
}
use wasm_safe_thread.Mpsc.State.{
  Shared, Pc, Choice, Received, absent, sender, check, enter, recheck, put, reject, refused,
  returning, returned, message, send, clone, receiver,
}
use wasm_safe_thread.Mpsc.Send.{send_turn}
use wasm_safe_thread.Mpsc.Recv.{recv_turn}
use wasm_safe_thread.Mpsc.Machine.{System, turn, moved, cloned, move, step, run, init, handles}

-- The messages that a schedule's calls of `send` have.
abbrev pub sent : {A : Type 0} → List (ℕ × Choice A) → List A
sent [] = []
sent ((_, send v) ∷ es) = v ∷ sent es
sent (_ ∷ es) = sent es

module _ {A : Type 0} (P : A → Type 0) where
  abbrev pub Holds : Received A → Type 0
  Holds (message v) = P v
  Holds _ = Unit {0}

  -- Every message that a call has is one of `P`.
  abbrev pub Says : Pc A → Type 0
  Says (check v) = P v
  Says (enter v) = P v
  Says (recheck v) = P v
  Says (put v) = P v
  Says (reject v) = P v
  Says (refused v) = P v
  Says (returning r) = Holds r
  Says (returned r) = Holds r
  Says _ = Unit {0}

  abbrev pub Each : List A → Type 0
  Each [] = Unit {0}
  Each (v ∷ vs) = P v × Each vs

  abbrev Sends : Choice A → Type 0
  Sends (send v) = P v
  Sends _ = Unit {0}

  Each-push : (vs : List A) (v : A) → Each vs → P v → Each (push vs v)
  Each-push [] v e p = (p, tt)
  Each-push (w ∷ vs) v (q, e) p = (q, Each-push vs v e p)

  turn-Says :
      (x : Choice A) (t : ℕ) (s : Shared A) (p : Pc A)
      → Sends x
      → Each s.queue
      → Says p
      → Says (turn x t s p).1 × Each (turn x t s p).0.queue
  unfolding turn send_turn recv_turn
  turn-Says x t s (put v) ok q h = (tt, Each-push s.queue v q h)
  turn-Says x t s sender ok q h = ground arith
  turn-Says x t s receiver ok q h = ground arith
  turn-Says x t s p ok q h = ground arith

  record IsSaid (s : System A) : Type 0 where
    calls : (t : ℕ) → Says (s.pc t)
    queued : Each s.shared.queue

  moved-IsSaid :
      (s : System A) (t : ℕ) (x : Choice A)
      → Sends x
      → IsSaid s
      → IsSaid (moved s t (turn x t s.shared (s.pc t)))
  moved-IsSaid s t x ok v =
      let k = turn-Says x t s.shared (s.pc t) ok v.queued (v.calls t) in
      record { calls = λ u. ground (arith, v.calls u, k.0); queued = k.1 }

  cloned-IsSaid : (s : System A) (p q : Pc A) (u : ℕ) → IsSaid s → IsSaid (cloned p q s u)
  cloned-IsSaid s sender absent u v = record {
    calls = λ w. ground (arith, v.calls w);
    queued = v.queued;
  }
  cloned-IsSaid s p q u v = v

  move-IsSaid : (s : System A) (t : ℕ) (x : Choice A) → Sends x → IsSaid s → IsSaid (move s t x)
  move-IsSaid s t (clone u) ok v = elim (Bool-cases (ltb u s.threads)) [
    | inl real ↦ rw real (cloned-IsSaid s (s.pc t) (s.pc u) u v)
    | inr unreal ↦ rw unreal v
  ]
  move-IsSaid s t x ok v = moved-IsSaid s t x ok v

  step-IsSaid : (s : System A) (t : ℕ) (x : Choice A) → Sends x → IsSaid s → IsSaid (step s (t, x))
  unfolding step
  step-IsSaid s t x ok v = elim (Bool-cases (ltb t s.threads)) [
    | inl real ↦ rw real (move-IsSaid s t x ok v)
    | inr unreal ↦ rw unreal v
  ]

  run-IsSaid :
      (s : System A) (es : List (ℕ × Choice A)) → Each (sent es) → IsSaid s → IsSaid (run s es)
  unfolding run
  run-IsSaid s [] ok v = v
  run-IsSaid s ((t, send w) ∷ es) ok v =
      run-IsSaid (step s (t, send w)) es (ok.1) (step-IsSaid s t (send w) (ok.0) v)
  run-IsSaid s ((t, x) ∷ es) ok v = run-IsSaid (step s (t, x)) es ok (step-IsSaid s t x tt v)

  init-IsSaid : (n : ℕ) → IsSaid (init n)
  init-IsSaid n = record { calls = silent; queued = tt }
    where
      silent : (t : ℕ) → Says (handles t)
      silent zero = tt
      silent (suc zero) = tt
      silent (suc (suc t)) = tt

  cast_Says : (p q : Pc A) → p ≡ q → Says p → Says q
  cast_Says p q e k = subst Says e k

  -- After any interleaving, a receive has returned only a message of which holds what holds of every
  -- message in the schedule's calls of `send`: no message is made up or changed.
  pub received_was_sent :
      (n : ℕ) (es : List (ℕ × Choice A)) (t : ℕ) (v : A)
      → Each (sent es)
      → (run (init n) es).pc t ≡ returned (message v)
      → P v
  received_was_sent n es t v ok e =
      cast_Says _ (returned (message v)) e ((run-IsSaid (init n) es ok (init-IsSaid n)).calls t)
