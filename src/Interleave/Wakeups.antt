-- ===== src/Interleave/Wakeups.antt =====
-- One list of waiters behind a spinlock, as the locks of the crate use it: a thread that fails to
-- get the lock enters itself while it has the list, and sleeps; a thread that releases the lock
-- takes the whole list and wakes what it took. `WaitersInv` says that no sleeper is forgotten.
use wasm_safe_thread.Base.{
  ℕ, ◌≡◌, ◌∙◌, ◌⊎◌, inl, inr, ◌≢◌, Bool, true, false, List, arith, update, elem, Bool-cases, ◌==◌,
}
use wasm_safe_thread.Interleave.Exclusion.{Shift, Excl, Shift-Excl}

-- What a program counter says about one list of waiters.
pub record Roles (Pc : Type 0) : Type 0 where
  -- The thread owns the list's spinlock.
  pub inside : Pc → Bool
  -- It has tried the lock in vain, and enters itself next.
  pub failed : Pc → Bool
  -- It has released the lock, and takes the list next.
  pub releasing : Pc → Bool
  -- The waiters that it took and has not woken.
  pub pending : Pc → List ℕ
  -- Thread `t` sleeps, or is about to, until ticket `k` is woken.
  pub awaits : ℕ → Pc → ℕ → Bool
  pub failed_inside : (p : Pc) → failed p ≡ true → inside p ≡ true

module _ {Pc : Type 0} (r : Roles Pc) where
  open r use {inside, failed, releasing, pending, awaits, failed_inside}

  -- Somebody will look at the list: the owner of the lock, or a thread that has just released it.
  abbrev pub Alert : (ℕ → Pc) → Bool → Type 0
  Alert pc busy = (busy ≡ true) ⊎ ((u : ℕ) × (releasing (pc u) ≡ true))

  abbrev pub Covered : (ℕ → Pc) → List ℕ → (ℕ → Bool) → ℕ → Type 0
  Covered pc queue woken k =
      (woken k ≡ true) ⊎ (elem k queue ≡ true) ⊎ ((u : ℕ) × (elem k (pending (pc u)) ≡ true))

  pub record WaitersInv (pc : ℕ → Pc) (busy locked : Bool) (queue : List ℕ) (woken : ℕ → Bool)
      : Type 0 where
    pub excl : Excl inside pc locked
    pub covered : (t k : ℕ) → awaits t (pc t) k ≡ true → Covered pc queue woken k
    pub alert : (k : ℕ) → elem k queue ≡ true → Alert pc busy
    pub failing : (t : ℕ) → failed (pc t) ≡ true → Alert pc busy

  abbrev pub Taken : Pc → List ℕ → Type 0
  Taken p' queue' = (inside p' ≡ true) × (failed p' ≡ false) × ((k : ℕ) → elem k queue' ≡ false)

  -- What one step of thread `i` from `p` to `p'` guarantees.
  pub record Guarantee (i : ℕ) (p p' : Pc) (busy busy' locked locked' : Bool)
      (queue queue' : List ℕ) (woken woken' : ℕ → Bool) : Type 0 where
    pub shift : Shift locked (inside p) locked' (inside p')
    pub waits :
        (k : ℕ)
        → awaits i p' k ≡ true
        → ((awaits i p k ≡ true) × (woken' k ≡ woken k)) ⊎ (elem k queue' ≡ true)
    pub kept : (u k : ℕ) (q : Pc) → u ≢ i → awaits u q k ≡ true → woken k ≡ true → woken' k ≡ true
    pub queued :
        (k : ℕ) → elem k queue ≡ true → (elem k queue' ≡ true) ⊎ (elem k (pending p') ≡ true)
    pub pended :
        (k : ℕ) → elem k (pending p) ≡ true → (elem k (pending p') ≡ true) ⊎ (woken' k ≡ true)
    pub entered : (k : ℕ) → elem k queue' ≡ true → (elem k queue ≡ true) ⊎ (failed p ≡ true)
    pub busied : busy ≡ true → (busy' ≡ true) ⊎ (releasing p' ≡ true)
    pub tried : failed p' ≡ true → busy' ≡ true
    pub released : releasing p ≡ true → (releasing p' ≡ true) ⊎ Taken p' queue'

  module _ {pc : ℕ → Pc} {busy busy' locked locked' : Bool} {queue queue' : List ℕ}
      {woken woken' : ℕ → Bool} (i : ℕ) (p' : Pc)
      (g : Guarantee i (pc i) p' busy busy' locked locked' queue queue' woken woken')
      (v : WaitersInv pc busy locked queue woken) where
    Alert-step : Alert pc busy → Alert (update pc i p') busy' ⊎ Taken p' queue'
    Alert-step (inl b) = elim (g.busied b) [
      | inl b' ↦ inl (inl b')
      | inr rel ↦ inl (inr (i, ground arith))
    ]
    Alert-step (inr (u, rel)) = elim (Bool-cases (i == u)) [
      | inl same ↦ elim (g.released (ground arith)) [
        | inl rel' ↦ inl (inr (i, ground arith))
        | inr taken ↦ inr taken
      ]
      | inr other ↦ inl (inr (u, ground arith))
    ]

    Excl-step : Excl inside (update pc i p') locked'
    Excl-step = Shift-Excl inside i p' g.shift v.excl

    step_Alert : (k : ℕ) → elem k queue' ≡ true → Alert (update pc i p') busy'
    step_Alert k h = elim (Alert-step before) [
      | inl a ↦ a
      | inr taken ↦ absurd (ground (arith, taken.2 k))
    ]
      where
        before : Alert pc busy
        before = elim (g.entered k h) [ inl old ↦ v.alert k old | inr f ↦ v.failing i f ]

    failing-other : (t : ℕ) → i ≢ t → failed (pc t) ≡ true → Alert (update pc i p') busy'
    failing-other t ne f = elim (Alert-step (v.failing t f)) [
      | inl a ↦ a
      | inr taken ↦
          absurd (ne (Excl-step.unique i t (ground arith) (ground (arith, failed_inside (pc t)))))
    ]

    failing-step : (t : ℕ) → failed (update pc i p' t) ≡ true → Alert (update pc i p') busy'
    failing-step t f = elim (Bool-cases (i == t)) [
      | inl same ↦ inl (g.tried (ground arith))
      | inr other ↦ failing-other t (ground arith) (ground arith)
    ]

    Covered-step :
        (k : ℕ)
        → (woken k ≡ true → woken' k ≡ true)
        → Covered pc queue woken k
        → Covered (update pc i p') queue' woken' k
    Covered-step k keep (inl w) = inl (keep w)
    Covered-step k keep (inr (inl q)) = elim (g.queued k q) [
      | inl q' ↦ inr (inl q')
      | inr pend ↦ inr (inr (i, ground arith))
    ]
    Covered-step k keep (inr (inr (u, pend))) = elim (Bool-cases (i == u)) [
      | inl same ↦ elim (g.pended k (ground arith)) [
        | inl pend' ↦ inr (inr (i, ground arith))
        | inr w ↦ inl w
      ]
      | inr other ↦ inr (inr (u, ground arith))
    ]

    step_Covered :
        (t k : ℕ) → awaits t (update pc i p' t) k ≡ true → Covered (update pc i p') queue' woken' k
    step_Covered t k h = elim (Bool-cases (i == t)) [
      | inl same ↦ self_Covered (ground arith)
      | inr other ↦
          Covered-step k (g.kept t k (pc t) (ground arith) (ground arith))
            (v.covered t k (ground arith))
    ]
      where
        self_Covered : awaits i p' k ≡ true → Covered (update pc i p') queue' woken' k
        self_Covered a = elim (g.waits k a) [
          | inl old ↦ Covered-step k (λ w. old.1 ∙ w) (v.covered i k old.0)
          | inr q ↦ inr (inl q)
        ]

    -- A step that keeps the guarantee keeps the invariant.
    pub Guarantee-WaitersInv : WaitersInv (update pc i p') busy' locked' queue' woken'
    Guarantee-WaitersInv = record {
      excl = Excl-step;
      covered = step_Covered;
      alert = step_Alert;
      failing = failing-step;
    }

  -- The conclusion: while the lock is free and nobody is about to look, no sleeper is unwoken.
  pub no_lost_wakeup :
      {pc : ℕ → Pc} {busy locked : Bool} {queue : List ℕ} {woken : ℕ → Bool}
      → WaitersInv pc busy locked queue woken
      → busy ≡ false
      → ((u : ℕ) → releasing (pc u) ≡ false)
      → (t k : ℕ) → awaits t (pc t) k ≡ true
      → (woken k ≡ true) ⊎ ((u : ℕ) × (elem k (pending (pc u)) ≡ true))
  no_lost_wakeup {pc} v free quiet t k a = elim (v.covered t k a) [
    | inl w ↦ inl w
    | inr (inl q) ↦ elim (v.alert k q) [
      | inl b ↦ absurd (cc)
      | inr (u, rel) ↦ absurd (cc (quiet u))
    ]
    | inr (inr w) ↦ inr w
  ]
