-- ===== src/Mpsc/Invariant.antt =====
-- What every turn of a channel's owners keeps.
use wasm_safe_thread.Base.{
  ℕ, zero, suc, ◌≡◌, ◌≢◌, ◌<◌, refl, ap, ◌∙◌, sym, inl, inr, true, false, List, [], ◌∷◌, ◌++◌,
  arith, ltb, ◌==◌, Bool-cases, push-append, update,
}
use mathlib.Core.List.{append_assoc, append-nil}
use wasm_safe_thread.Interleave.{Excl, Shift-Excl, count, count_bound, count-update, one-le-count}
use wasm_safe_thread.Mpsc.State.{Shared, Pc, Choice, usize, absent, sender, put, take, clone}
use wasm_safe_thread.Mpsc.Send.{send_turn}
use wasm_safe_thread.Mpsc.Recv.{recv_turn}
use wasm_safe_thread.Mpsc.Machine.{
  System, turn, puts, in_hand, moved, with_clone, cloned, move, step, init, handles, run,
}
use wasm_safe_thread.Mpsc.Roles.{
  guarded, alive, is_receiver, turn-is_receiver, Knows, turn-Shift, turn-count, self_Knows,
  other_Knows,
}

count-handles : (A : Type 0) (n : ℕ) → count (alive {A = A}) (suc (suc n)) handles ≡ 1
unfolding count
count-handles A zero = refl
count-handles A (suc n) = ground (arith, count-handles A n)

module _ {A : Type 0} where
  pub record Inv (s : System A) : Type 0 where
    pub size : s.threads < usize
    pub excl : Excl guarded s.pc s.shared.cond.mutex
    pub tally : s.shared.sender_count ≡ count alive s.threads s.pc
    pub knows : (t : ℕ) → Knows s.shared (s.pc t)
    pub sides : (t : ℕ) → is_receiver (s.pc t) ≡ (t == 0)
    pub fifo : s.received ++ (in_hand (s.pc 0) ++ s.shared.queue) ≡ s.pushed

  -- What a receive is to return was at the queue's front, and what a send puts in is at its end.
  turn-queue :
      (x : Choice A) (t : ℕ) (s : Shared A) (p : Pc A)
      → in_hand (turn x t s p).1 ++ (turn x t s p).0.queue ≡ s.queue ++ puts p
  unfolding turn send_turn recv_turn
  turn-queue x t s (put v) = push-append s.queue v
  turn-queue x t s (take m) = ground (arith, append-nil s.queue)
  turn-queue x t s p = ground (arith, append-nil s.queue)

  empty_handed : (p : Pc A) → is_receiver p ≡ false → in_hand p ≡ []
  empty_handed p e = ground arith

  -- A turn of the receiver, and one of another thread.
  receiver_hand :
      (rs h h' q q' ps : List A)
      → h' ++ q' ≡ q ++ ps
      → (rs ++ h) ++ (h' ++ q') ≡ rs ++ ((h ++ q) ++ ps)
  receiver_hand rs h h' q q' ps e =
      append_assoc rs h (h' ++ q')
      ∙ ap (λ l. rs ++ l) (ap (λ l. h ++ l) e ∙ sym (append_assoc h q ps))

  sender_hand :
      (rs h h' q q' ps k : List A)
      → h ≡ []
      → h' ≡ []
      → h' ++ q' ≡ q ++ ps
      → (rs ++ h) ++ (k ++ q') ≡ rs ++ ((k ++ q) ++ ps)
  sender_hand rs h h' q q' ps k n n' e =
      ap (λ l. (rs ++ l) ++ (k ++ q')) n
      ∙ ap (λ l. l ++ (k ++ q')) (append-nil rs)
      ∙ ap (λ l. rs ++ (k ++ l)) (ap (λ l. l ++ q') (sym n') ∙ e)
      ∙ ap (λ l. rs ++ l) (sym (append_assoc k q ps))

  module _ {s : System A} (v : Inv s) (t : ℕ) (lt : t < s.threads) where
    counted : alive (s.pc t) ≡ true → s.shared.sender_count ≢ 0
    counted h e = absurd (ground (arith, v.tally, one-le-count alive s.threads s.pc t lt))

    module _ (x : Choice A) where
      abbrev r : Shared A × Pc A
      r = turn x t s.shared (s.pc t)

      apart : (u : ℕ) → t ≢ u → guarded (s.pc t) ≡ true → guarded (s.pc u) ≡ true → ⊥
      apart u ne h k = ne (v.excl.unique t u h k)

      moved_Knows : (u : ℕ) → Knows r.0 (update s.pc t r.1 u)
      moved_Knows u = elim (Bool-cases (t == u)) [
        | inl same ↦ ground (arith, self_Knows x t s.shared (s.pc t) (v.knows t))
        | inr other ↦ ground (
          arith,
          other_Knows x t s.shared (s.pc t) (s.pc u) (apart u (ground arith)) counted (v.knows u),
        )
      ]

      moved_tally : r.0.sender_count ≡ count alive s.threads (update s.pc t r.1)
      moved_tally = ground (
        arith,
        v.tally,
        v.size,
        count_bound alive s.threads s.pc,
        one-le-count alive s.threads s.pc t lt,
        count-update alive s.threads s.pc t r.1 lt,
        turn-count x t s.shared (s.pc t),
      )

      moved_sides : (u : ℕ) → is_receiver (update s.pc t r.1 u) ≡ (u == 0)
      moved_sides u = ground (arith, v.sides u, turn-is_receiver x t s.shared (s.pc t))

      moved_hand :
          (s.received ++ in_hand (s.pc t)) ++ (in_hand (update s.pc t r.1 0) ++ r.0.queue)
          ≡ s.received ++ ((in_hand (s.pc 0) ++ s.shared.queue) ++ puts (s.pc t))
      moved_hand = elim (Bool-cases (t == 0)) [
        | inl own ↦
            let same : t ≡ 0 = ground arith in
            rw same (
              receiver_hand s.received (in_hand (s.pc 0)) (in_hand (turn x 0 s.shared (s.pc 0)).1)
                s.shared.queue (turn x 0 s.shared (s.pc 0)).0.queue (puts (s.pc 0))
                (turn-queue x 0 s.shared (s.pc 0)))
        | inr other ↦
            let q = turn-queue x t s.shared (s.pc t) in
            let side = turn-is_receiver x t s.shared (s.pc t) in
            rw other (
              sender_hand s.received (in_hand (s.pc t)) (in_hand r.1) s.shared.queue r.0.queue
                (puts (s.pc t)) (in_hand (s.pc 0))
                (empty_handed (s.pc t) (ground (arith, v.sides t)))
                (empty_handed r.1 (ground (arith, v.sides t, side))) q)
      ]

      moved_fifo :
          (s.received ++ in_hand (s.pc t)) ++ (in_hand (update s.pc t r.1 0) ++ r.0.queue)
          ≡ s.pushed ++ puts (s.pc t)
      moved_fifo =
          moved_hand
          ∙ sym (append_assoc s.received (in_hand (s.pc 0) ++ s.shared.queue) (puts (s.pc t)))
          ∙ ap (λ q. q ++ puts (s.pc t)) v.fifo

      pub moved-Inv : Inv (moved s t (turn x t s.shared (s.pc t)))
      moved-Inv = record {
        size = v.size;
        excl = Shift-Excl guarded t r.1 (turn-Shift x t s.shared (s.pc t)) v.excl;
        tally = moved_tally;
        knows = moved_Knows;
        sides = moved_sides;
        fifo = moved_fifo;
      }

    module _ (u : ℕ) (lu : u < s.threads) (from : s.pc t ≡ sender) (to : s.pc u ≡ absent) where
      still_Knows : (w : ℕ) → Knows (with_clone s u).shared ((with_clone s u).pc w)
      still_Knows w = elim (Bool-cases (u == w)) [
        | inl same ↦ ground arith
        | inr other ↦ ground (arith, v.knows w, counted)
      ]

      clone_tally : (with_clone s u).shared.sender_count ≡ count alive s.threads (with_clone s u).pc
      clone_tally = ground (
        arith,
        v.tally,
        v.size,
        count_bound alive s.threads (update s.pc u sender),
        count-update alive s.threads s.pc u sender lu,
      )

      with_clone-Inv : Inv (with_clone s u)
      with_clone-Inv = record {
        size = v.size;
        excl = Shift-Excl guarded u sender (ground arith) v.excl;
        tally = clone_tally;
        knows = still_Knows;
        sides = λ w. ground (arith, v.sides w, v.sides u);
        fifo = ground (arith, v.fifo);
      }

    cloned-Inv :
        (u : ℕ) (p q : Pc A) → u < s.threads → s.pc t ≡ p → s.pc u ≡ q → Inv (cloned p q s u)
    cloned-Inv u sender absent lu from to = with_clone-Inv u lu from to
    cloned-Inv u p q lu from to = v

    move-Inv : (x : Choice A) → Inv (move s t x)
    move-Inv (clone u) = elim (Bool-cases (ltb u s.threads)) [
      | inl real ↦ rw real (cloned-Inv u (s.pc t) (s.pc u) (ground arith) refl refl)
      | inr unreal ↦ rw unreal v
    ]
    move-Inv x = moved-Inv x

  pub step-Inv : (s : System A) (e : ℕ × Choice A) → Inv s → Inv (step s e)
  unfolding step
  step-Inv s (t, x) v = elim (Bool-cases (ltb t s.threads)) [
    | inl real ↦ rw real (move-Inv v t (ground arith) x)
    | inr unreal ↦ rw unreal v
  ]

  -- The invariant holds of a new channel whose threads, at least two, are as many as `usize` counts.
  pub init-Inv : (n : ℕ) → suc (suc n) < usize → Inv (init (suc (suc n)))
  init-Inv n h = record {
    size = h;
    excl = record {
      owned = λ t g. absurd (unguarded t g);
      unique = λ t u g k. absurd (unguarded t g);
    };
    tally = sym (count-handles A n);
    knows = ignorant;
    sides = started;
    fifo = refl;
  }
    where
      unguarded : (t : ℕ) → guarded {A = A} (handles t) ≡ true → ⊥
      unguarded zero g = cc
      unguarded (suc zero) g = cc
      unguarded (suc (suc t)) g = cc

      started : (t : ℕ) → is_receiver {A = A} (handles t) ≡ (t == 0)
      started zero = refl
      started (suc zero) = refl
      started (suc (suc t)) = ground arith

      ignorant : (t : ℕ) → Knows {A = A} (init (suc (suc n))).shared (handles t)
      ignorant zero = tt
      ignorant (suc zero) = tt
      ignorant (suc (suc t)) = tt

  runs-Inv : (s : System A) (es : List (ℕ × Choice A)) → Inv s → Inv (run s es)
  unfolding run
  runs-Inv s [] v = v
  runs-Inv s (e ∷ es) v = runs-Inv (step s e) es (step-Inv s e v)

  pub run-Inv :
      (n : ℕ) (es : List (ℕ × Choice A)) → suc (suc n) < usize → Inv (run (init (suc (suc n))) es)
  run-Inv n es h = runs-Inv (init (suc (suc n))) es (init-Inv n h)
