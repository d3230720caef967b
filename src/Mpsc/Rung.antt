-- ===== src/Mpsc/Rung.antt =====
-- What every turn of a channel keeps of the receiver's registration, when the receiver parks without
-- a deadline; and the turns of the senders.
use wasm_safe_thread.Base.{ℕ, ◌≡◌, ◌⊎◌, inl, inr, true, false, [], arith, elem, ◌==◌, Bool-cases}
use wasm_safe_thread.Condvar.State.{block}
use wasm_safe_thread.Mpsc.State.{Shared, Pc, Choice}
use wasm_safe_thread.Mpsc.Machine.{System, turn, moved}
use wasm_safe_thread.Mpsc.Invariant.{Inv}
use wasm_safe_thread.Mpsc.Wakeups.{is_receiver, awaiting, taken, coming, before_release}
use wasm_safe_thread.Mpsc.Sent.{Covered, before_release-guarded}
use wasm_safe_thread.Mpsc.Parked.{OnlyParked, is_parking, Rings, send-Rings}

module _ {A : Type 0} where
  -- The receiver's token is there, or on its way.
  abbrev pub Roused : (ℕ → Pc A) → Shared A → Type 0
  Roused pc s =
      (s.cond.token 0 ≡ true)
      ⊎ ((u : ℕ) × (elem 0 (taken block (pc u)) ≡ true))
      ⊎ ((u : ℕ) × (coming block (pc u) ≡ true))

  pub record Rouses (s : System A) : Type 0 where
    pub sides : (t : ℕ) → is_receiver (s.pc t) ≡ (t == 0)
    pub lists : OnlyParked s.shared.cond
    pub way : is_parking (s.pc 0) ≡ true
    pub quiet : before_release (s.pc 0) ≡ true → s.shared.queue ≡ []
    pub covered : awaiting block (s.pc 0) 0 ≡ true → Covered block s.pc s.shared 0
    pub alert : awaiting block (s.pc 0) 0 ≡ true → (s.shared.queue ≡ []) ⊎ Roused s.pc s.shared

  -- A turn of a sender.
  module _ {s : System A} (d : Rouses s) (i : Inv s) (x : Choice A) (t : ℕ)
      (ne : (t == 0) ≡ false) where
    abbrev r : Shared A × Pc A
    r = turn x t s.shared (s.pc t)

    abbrev s' : System A
    s' = moved s t r

    rings : Rings (s.pc t) r.1 s.shared r.0
    rings = send-Rings x t s.shared (s.pc t) d.lists (ground (arith, d.sides t))

    receiver_stays : s'.pc 0 ≡ s.pc 0
    receiver_stays = ground arith

    own_taken : elem 0 (taken block r.1) ≡ true → (u : ℕ) × (elem 0 (taken block (s'.pc u)) ≡ true)
    own_taken e = (t, ground (arith, e))

    own_coming : coming block r.1 ≡ true → (u : ℕ) × (coming block (s'.pc u) ≡ true)
    own_coming e = (t, ground (arith, e))

    -- A number that some notification has taken is still taken, or woken.
    keeps_taken :
        (u : ℕ)
        → elem 0 (taken block (s.pc u)) ≡ true
        → (s'.shared.cond.token 0 ≡ true) ⊎ ((w : ℕ) × (elem 0 (taken block (s'.pc w)) ≡ true))
    keeps_taken u l = elim (Bool-cases (t == u)) [
      | inl equal ↦ elim (rings.pended (ground arith)) [ inl e ↦ inr (own_taken e) | inr w ↦ inl w ]
      | inr other ↦ inr (u, ground (arith, l))
    ]

    sent-Covered : awaiting block (s.pc 0) 0 ≡ true → Covered block s'.pc s'.shared 0
    sent-Covered a = elim (d.covered a) [
      | inl w ↦ inl (rings.wakes w)
      | inr (inl l) ↦ elim (rings.moved l) [ inl e ↦ inr (inl e) | inr e ↦ inr (inr (own_taken e)) ]
      | inr (inr (u, l)) ↦ elim (keeps_taken u l) [ inl w ↦ inl w | inr e ↦ inr (inr e) ]
    ]

    kept_Roused : awaiting block (s.pc 0) 0 ≡ true → Roused s.pc s.shared → Roused s'.pc s'.shared
    kept_Roused a (inl w) = inl (rings.wakes w)
    kept_Roused a (inr (inl (u, l))) = elim (keeps_taken u l) [
      | inl w ↦ inl w
      | inr e ↦ inr (inl e)
    ]
    kept_Roused a (inr (inr (u, c))) = elim (Bool-cases (t == u)) [
      | inr other ↦ inr (inr (u, ground (arith, c)))
      | inl equal ↦ elim (rings.arrives (ground arith)) [
        | inl c' ↦ inr (inr (own_coming c'))
        | inr (inl e) ↦ inr (inl (own_taken e))
        | inr (inr gone) ↦ elim (d.covered a) [
          | inl w ↦ inl (rings.wakes w)
          | inr (inl l) ↦ absurd (ground (arith, l, gone))
          | inr (inr (w, l)) ↦ elim (keeps_taken w l) [ inl k ↦ inl k | inr e ↦ inr (inl e) ]
        ]
      ]
    ]

    sent_alert : awaiting block (s.pc 0) 0 ≡ true → (s'.shared.queue ≡ []) ⊎ Roused s'.pc s'.shared
    sent_alert a = elim (d.alert a) [
      | inr k ↦ inr (kept_Roused a k)
      | inl empty ↦ elim rings.pushes [
        | inl e ↦ inl (ground arith)
        | inr (c, g) ↦ inr (inr (inr (own_coming c)))
      ]
    ]

    sent_quiet : before_release (s.pc 0) ≡ true → s'.shared.queue ≡ []
    sent_quiet e =
        ground (arith, d.quiet, rings.pushes, i.excl.unique t 0, before_release-guarded (s.pc 0))

    pub sent-Rouses : Rouses s'
    sent-Rouses = record {
      sides = λ u. ground (arith, d.sides u, rings.still);
      lists = rings.lists;
      way = rw receiver_stays d.way;
      quiet = rw receiver_stays sent_quiet;
      covered = rw receiver_stays sent-Covered;
      alert = rw receiver_stays sent_alert;
    }
