-- ===== src/Rwlock/Invariant.antt =====
-- Every schedule of a read-write lock keeps the tally of its guards, and the data under them.
use wasm_safe_thread.Base.{
  ℕ, ◌<◌, ◌≡◌, ◌≢◌, refl, ◌∙◌, inl, inr, true, false, List, arith, ltb, ◌==◌, update, Bool-cases,
  ap,
}
use wasm_safe_thread.Interleave.{count, count-update, one-le-count, two-le-count, count-none}
use wasm_safe_thread.Rwlock.State.{Pc, Choice, idle, seen, loaded}
use wasm_safe_thread.Rwlock.Machine.{System, turn, run, init, run_inv, moved}
use wasm_safe_thread.Rwlock.Exclusion.{
  reads, writes, Tally, turn-Tally, IsFresh, Inv, turn-asserted, turn-inner, turn-IsFresh,
}

module _ {A : Type 0} {s : System A} (v : Inv s) where
  abbrev readers : ℕ
  readers = count reads s.threads s.pc

  abbrev writers : ℕ
  writers = count writes s.threads s.pc

  real : (t : ℕ) → s.pc t ≢ idle → t < s.threads
  real t h = elim (Bool-cases (ltb t s.threads)) [
    | inl lt ↦ ground arith
    | inr ge ↦ absurd (h (v.absent t (ground arith)))
  ]

  writer_real : (t : ℕ) → writes (s.pc t) ≡ true → t < s.threads
  writer_real t h = real t (λ e. cc (ap writes e))

  reader_real : (t : ℕ) → reads (s.pc t) ≡ true → t < s.threads
  reader_real t h = real t (λ e. cc (ap reads e))

  -- The owner of a write guard is alone.
  pub writer_alone : (t u : ℕ) → writes (s.pc t) ≡ true → reads (s.pc u) ≡ false
  writer_alone t u h = elim (Bool-cases (reads (s.pc u))) [
    | inl r ↦ absurd (
        ground (
          arith,
          v.tally,
          one-le-count writes s.threads s.pc t (writer_real t h),
          one-le-count reads s.threads s.pc u (reader_real u r),
        ))
    | inr none ↦ none
  ]

  pub writer_unique : (t u : ℕ) → writes (s.pc t) ≡ true → writes (s.pc u) ≡ true → t ≡ u
  writer_unique t u h k = elim (Bool-cases (t == u)) [
    | inl same ↦ ground arith
    | inr other ↦ absurd (
        ground (
          arith,
          v.tally,
          two-le-count writes s.threads s.pc t u (writer_real t h) (writer_real u k) (ground arith)
              h k,
        ))
  ]

  module _ (t : ℕ) (c : Choice A) (lt : t < s.threads) where
    abbrev p' : Pc A
    p' = (turn c t s.mem (s.pc t)).1

    moved-Tally :
        Tally
          (turn c t s.mem (s.pc t)).0.data_lock
          (count reads s.threads (update s.pc t p'))
          (count writes s.threads (update s.pc t p'))
    moved-Tally =
        turn-Tally readers writers _ _ c t s.mem (s.pc t) v.tally
          (one-le-count reads s.threads s.pc t lt) (one-le-count writes s.threads s.pc t lt)
          (count-update reads s.threads s.pc t p' lt) (count-update writes s.threads s.pc t p' lt)

    other_IsFresh :
        (u : ℕ) (q : Pc A)
        → s.pc u ≡ q
        → t ≢ u
        → IsFresh s.mem q
        → IsFresh (turn c t s.mem (s.pc t)).0 q
    other_IsFresh u (seen a) e ne h = turn-inner c t s.mem (s.pc t) (untouched (rw e refl)) ∙ h
      where
        untouched : reads (s.pc u) ≡ true → writes (s.pc t) ≡ false
        untouched r = ground (arith, writer_alone t u)
    other_IsFresh u (loaded f a) e ne h = turn-inner c t s.mem (s.pc t) (untouched (rw e refl)) ∙ h
      where
        untouched : writes (s.pc u) ≡ true → writes (s.pc t) ≡ false
        untouched w = ground (arith, writer_unique t u)
    other_IsFresh u q e ne h = ground arith

    pub moved-Inv : Inv (moved s t (turn c t s.mem (s.pc t)))
    moved-Inv = record {
      tally = moved-Tally;
      absent = λ u h. ground (arith, v.absent u);
      asserted = λ u. ground (
        arith,
        v.asserted u,
        turn-asserted c t s.mem (s.pc t) v.tally (one-le-count reads s.threads s.pc t lt)
            (one-le-count writes s.threads s.pc t lt) (v.asserted t),
      );
      fresh = λ u. elim (Bool-cases (t == u)) [
        | inl same ↦ ground (arith, turn-IsFresh c t s.mem (s.pc t) (v.fresh t))
        | inr other ↦ ground (arith, other_IsFresh u (s.pc u) refl (ground arith) (v.fresh u))
      ];
    }

module _ {A : Type 0} where
  pub init-Inv : (n : ℕ) (a : A) → Inv (init n a)
  init-Inv n a = record {
    tally =
        rw (count-none reads n (λ _. idle) (λ _. refl), count-none writes n (λ _. idle) (λ _. refl))
          (ground arith);
    absent = λ t h. refl;
    asserted = λ t. refl;
    fresh = λ t. tt;
  }

  pub run-Inv : (n : ℕ) (a : A) (es : List (ℕ × Choice A)) → Inv (run (init n a) es)
  run-Inv n a es = run_inv Inv (λ s t c lt v. moved-Inv v t c lt) (init n a) es (init-Inv n a)
