-- ===== src/Mpsc/Sent.antt =====
-- What every turn of a channel keeps of the receiver's registration, when the receiver waits by
-- polling a flag or in an async task; and the turns of the senders.
use wasm_safe_thread.Base.{
  ℕ, ◌≡◌, ◌<◌, ◌≤◌, ◌⊎◌, inl, inr, true, false, List, [], arith, elem, ◌==◌, Bool-cases,
}
use wasm_safe_thread.Condvar.State.{How, block, list, woken}
use wasm_safe_thread.Condvar.Roles.{same}
use wasm_safe_thread.Mpsc.State.{Shared, Pc, Choice}
use wasm_safe_thread.Mpsc.Machine.{System, turn, moved}
use wasm_safe_thread.Mpsc.Roles.{guarded}
use wasm_safe_thread.Mpsc.Invariant.{Inv}
use wasm_safe_thread.Mpsc.Wakeups.{
  is_receiver, uses, awaiting, taken, coming, before_release, NobodyElse, AtMostOne, Single,
  Numbers, Sends, send-Sends,
}

module _ {A : Type 0} where
  abbrev pub Covered : How → (ℕ → Pc A) → Shared A → ℕ → Type 0
  Covered h pc s k =
      (woken h s.cond k ≡ true)
      ⊎ (elem k (list h s.cond) ≡ true)
      ⊎ ((u : ℕ) × (elem k (taken h (pc u)) ≡ true))

  pub record Delivers (h : How) (s : System A) : Type 0 where
    pub sides : (t : ℕ) → is_receiver (s.pc t) ≡ (t == 0)
    pub nobody : NobodyElse h s.shared.cond
    pub way : uses h (s.pc 0) ≡ true
    pub untaken : taken h (s.pc 0) ≡ []
    pub single : Single h (s.pc 0) (list h s.shared.cond)
    pub numbers : Numbers h s.shared.cond
    pub pended :
        (u k : ℕ)
        → elem k (taken h (s.pc u)) ≡ true
        → (k < s.shared.cond.next) × (elem k (list h s.shared.cond) ≡ false)
    pub quiet : before_release (s.pc 0) ≡ true → s.shared.queue ≡ []
    pub covered : (k : ℕ) → awaiting h (s.pc 0) k ≡ true → Covered h s.pc s.shared k
    pub alert :
        (k : ℕ)
        → elem k (list h s.shared.cond) ≡ true
        → (s.shared.queue ≡ []) ⊎ ((u : ℕ) × (coming h (s.pc u) ≡ true))

  Single-AtMostOne : (h : How) (p : Pc A) (xs : List ℕ) → Single h p xs → AtMostOne xs
  Single-AtMostOne h p xs (inl e) = inl e
  Single-AtMostOne h p xs (inr (k, e, w)) = inr (k, e)

  pub before_release-guarded : (p : Pc A) → before_release p ≡ true → guarded p ≡ true
  before_release-guarded p e = ground arith

  -- A turn of a sender.
  module _ {h : How} {s : System A} (way : same h block ≡ false) (d : Delivers h s) (i : Inv s)
      (x : Choice A) (t : ℕ) (ne : (t == 0) ≡ false) where
    abbrev r : Shared A × Pc A
    r = turn x t s.shared (s.pc t)

    abbrev s' : System A
    s' = moved s t r

    sends : Sends h (s.pc t) r.1 s.shared r.0
    sends =
        send-Sends h x t s.shared (s.pc t) way d.nobody
          (Single-AtMostOne h (s.pc 0) (list h s.shared.cond) d.single) (ground (arith, d.sides t))

    receiver_stays : s'.pc 0 ≡ s.pc 0
    receiver_stays = ground arith

    sent_sides : (u : ℕ) → is_receiver (s'.pc u) ≡ (u == 0)
    sent_sides u = ground (arith, d.sides u, sends.still)

    sent-Single : Single h (s'.pc 0) (list h s'.shared.cond)
    sent-Single = rw receiver_stays ground (arith, d.single, sends.emptied)

    sent_fresh : (k : ℕ) → s'.shared.cond.next ≤ k → woken h s'.shared.cond k ≡ false
    sent_fresh k le = ground (arith, d.numbers.fresh k, sends.woke k, d.pended t k, sends.numbers)

    sent_listed :
        (k : ℕ)
        → elem k (list h s'.shared.cond) ≡ true
        → (k < s'.shared.cond.next) × (woken h s'.shared.cond k ≡ false)
    sent_listed k e =
        ground (arith, d.numbers.listed k, sends.woke k, sends.lists k, d.pended t k, sends.numbers)

    sent-Numbers : Numbers h s'.shared.cond
    sent-Numbers = record { fresh = sent_fresh; listed = sent_listed }

    sent_pended :
        (u k : ℕ)
        → elem k (taken h (s'.pc u)) ≡ true
        → (k < s'.shared.cond.next) × (elem k (list h s'.shared.cond) ≡ false)
    sent_pended u k e = ground (
      arith,
      d.pended u k,
      d.pended t k,
      sends.takes k,
      sends.lists k,
      sends.numbers,
      d.numbers.listed k,
    )

    sent_quiet : before_release (s'.pc 0) ≡ true → s'.shared.queue ≡ []
    sent_quiet e =
        ground (arith, d.quiet, sends.pushes, i.excl.unique t 0, before_release-guarded (s.pc 0))

    own_taken : (k : ℕ) → elem k (taken h r.1) ≡ true → Covered h s'.pc s'.shared k
    own_taken k e = inr (inr (t, ground (arith, e)))

    own_coming : coming h r.1 ≡ true → (u : ℕ) × (coming h (s'.pc u) ≡ true)
    own_coming e = (t, ground (arith, e))

    sent-Covered : (k : ℕ) → awaiting h (s'.pc 0) k ≡ true → Covered h s'.pc s'.shared k
    sent-Covered k a = elim (d.covered k (ground arith)) [
      | inl w ↦ inl (sends.wakes k w)
      | inr (inl l) ↦ elim (sends.moved k l) [ inl e ↦ inr (inl e) | inr e ↦ own_taken k e ]
      | inr (inr (u, l)) ↦ elim (Bool-cases (t == u)) [
        | inl equal ↦ elim (sends.pended k (ground arith)) [ inl e ↦ own_taken k e | inr w ↦ inl w ]
        | inr other ↦ inr (inr (u, ground (arith, l)))
      ]
    ]

    sent_alert :
        (k : ℕ)
        → elem k (list h s'.shared.cond) ≡ true
        → (s'.shared.queue ≡ []) ⊎ ((u : ℕ) × (coming h (s'.pc u) ≡ true))
    sent_alert k e = elim (d.alert k (ground (arith, sends.lists k e))) [
      | inl empty ↦ elim sends.pushes [
        | inl e' ↦ inl (ground arith)
        | inr (c, g) ↦ inr (own_coming c)
      ]
      | inr (u, c) ↦ elim (Bool-cases (t == u)) [
        | inl equal ↦ elim (sends.arrives (ground arith)) [
          | inl c' ↦ inr (own_coming c')
          | inr gone ↦ absurd (ground (arith, e, gone))
        ]
        | inr other ↦ inr (u, ground (arith, c))
      ]
    ]

    pub sent-Delivers : Delivers h s'
    sent-Delivers = record {
      sides = sent_sides;
      nobody = sends.nobody;
      way = rw receiver_stays d.way;
      untaken = rw receiver_stays d.untaken;
      single = sent-Single;
      numbers = sent-Numbers;
      pended = sent_pended;
      quiet = sent_quiet;
      covered = sent-Covered;
      alert = sent_alert;
    }
