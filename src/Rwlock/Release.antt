-- ===== src/Rwlock/Release.antt =====
-- The drop of the last guard of a read-write lock, run to its end: whom it wakes, and that the woken
-- caller gets its guard.
use wasm_safe_thread.Base.{
  ℕ, ◌≡◌, ◌≢◌, ◌<◌, refl, ap, ◌∙◌, sym, Bool, true, false, List, [], ◌∷◌, arith, elem, update,
  subst,
}
use wasm_safe_thread.Rwlock.State.{
  Mem, Lane, Pc, Choice, lane, sync_read, async_read, sync_write, async_write, locked_write, asleep,
  wait, reading, writing, idle, drop, go,
}
use wasm_safe_thread.Rwlock.Read.{try_lock_read, lock_block_read, lock_async_read}
use wasm_safe_thread.Rwlock.Write.{try_lock_write, lock_block_write, lock_async_write}
use wasm_safe_thread.Rwlock.Unlock.{drop_read, drop_write}
use wasm_safe_thread.Rwlock.Machine.{System, turn, run, with_read, with_write}
use wasm_safe_thread.Rwlock.Solo.{solo, only, run-only}
use wasm_safe_thread.Rwlock.Drain.{
  ListsFree, drains, drains_turns, drains_lem, solo-drains, is_among, is_awake, drains_wake,
}

-- What the drop of the only read guard, and of a write guard, goes through.
abbrev pub lists_after : (exclusive : Bool) → List Lane
lists_after true = sync_read ∷ async_read ∷ sync_write ∷ async_write ∷ []
lists_after false = sync_write ∷ async_write ∷ []

abbrev pub locked_by : (exclusive : Bool) → ℕ
locked_by true = locked_write
locked_by false = 1

-- A thread is its own ticket, and a continuation is anyone's.
abbrev pub IsTicket : Lane → (t k : ℕ) → Type 0
IsTicket sync_read t k = k ≡ t
IsTicket sync_write t k = k ≡ t
IsTicket _ t k = Unit {0}

update_here : {X : Type 0} (f : ℕ → X) (t : ℕ) (x : X) → update f t x t ≡ x
update_here f t x = ground arith

module _ {A : Type 0} where
  abbrev pub guard_of : (exclusive : Bool) → Pc A
  guard_of true = writing
  guard_of false = reading

  abbrev pub wanted : Lane → Pc A
  wanted sync_read = reading
  wanted async_read = reading
  wanted sync_write = writing
  wanted async_write = writing

  abbrev pub unlocked_mem : Mem A → Mem A
  unlocked_mem m = record m { data_lock = 0 }

  -- The store, and the turns for each list.
  abbrev pub drop_turns : (exclusive : Bool) → Mem A → List (Choice A)
  drop_turns exclusive m = drop ∷ drains_turns (lists_after exclusive) (unlocked_mem m)

  abbrev pub four : List (Choice A)
  four = go ∷ go ∷ go ∷ go ∷ []

  solo-drop :
      (t : ℕ) (exclusive : Bool) (m : Mem A)
      → ListsFree m
      → m.data_lock ≡ locked_by exclusive
      → solo t (drop_turns exclusive m) (m, guard_of exclusive)
        ≡ (drains (lists_after exclusive) (unlocked_mem m), idle)
  unfolding solo turn with_read with_write drop_read drop_write
  solo-drop t true m free e = rw e (
      solo-drains t (lists_after true) (unlocked_mem m) (refl, (refl, (refl, (refl, tt))))
        (λ l. ground (arith, free l)))
  solo-drop t false m free e = rw e (
      solo-drains t (lists_after false) (unlocked_mem m) (refl, (refl, tt))
        (λ l. ground (arith, free l)))

  woken_lock :
      (t k : ℕ) (l : Lane) (m : Mem A)
      → ListsFree m
      → m.data_lock ≡ 0
      → IsTicket l t k
      → is_awake l k m ≡ true
      → (solo t four (m, wait l (asleep k))).1 ≡ wanted l
  unfolding solo turn lock_block_read lock_async_read lock_block_write lock_async_write
      try_lock_read try_lock_write
  woken_lock t k l m free e own awake = ground (arith, free l)

  solo_woken :
      (t k : ℕ) (l : Lane) (m : Mem A) (p : Pc A)
      → p ≡ wait l (asleep k)
      → ListsFree m
      → m.data_lock ≡ 0
      → IsTicket l t k
      → is_awake l k m ≡ true
      → (solo t four (m, p)).1 ≡ wanted l
  solo_woken t k l m p e free unlocked_now own awake =
      rw e (woken_lock t k l m free unlocked_now own awake)

  -- What is left of the memory when the guard has been dropped.
  abbrev Dropped : Lane → ℕ → Mem A → Type 0
  Dropped l k m = ListsFree m × (m.data_lock ≡ 0) × (is_awake l k m ≡ true)

  drains-Dropped :
      (exclusive : Bool) (l : Lane) (k : ℕ) (m : Mem A)
      → ListsFree m
      → is_among l (lists_after exclusive) ≡ true
      → elem k (lane l m).queue ≡ true
      → Dropped l k (drains (lists_after exclusive) (unlocked_mem m))
  drains-Dropped exclusive l k m free among entered =
      let free' : ListsFree (unlocked_mem m) = λ n. ground (arith, free n) in
      let r = drains_lem (lists_after exclusive) (unlocked_mem m) free' in
      (r.2, r.0, drains_wake (lists_after exclusive) l k (unlocked_mem m) among (ground arith))

  mem_dropped :
      (s : System A) (u : ℕ) (exclusive : Bool)
      → u < s.threads
      → ListsFree s.mem
      → s.pc u ≡ guard_of exclusive
      → s.mem.data_lock ≡ locked_by exclusive
      → (run s (only u (drop_turns exclusive s.mem))).mem
        ≡ drains (lists_after exclusive) (unlocked_mem s.mem)
  mem_dropped s u exclusive real free owner e =
      (run-only u (drop_turns exclusive s.mem) s real).1
      ∙ ap (λ p. (solo u (drop_turns exclusive s.mem) (s.mem, p)).0) owner
      ∙ ap (λ r. r.0) (solo-drop u exclusive s.mem free e)

  -- The hand-over. Thread `u` drops a write guard, or the only read guard, while nobody else takes a
  -- turn and no list's spinlock is taken. The drop ends; and every other caller `t` that sleeps, with
  -- its own thread or continuation entered in a list which the drop wakes (all four after a write
  -- guard, those of the writers after a read guard), has the guard it asked for after four turns of
  -- its own.
  pub last_drop_hands_over :
      (s : System A) (t u k : ℕ) (exclusive : Bool) (l : Lane)
      → t < s.threads
      → u < s.threads
      → ListsFree s.mem
      → s.pc u ≡ guard_of exclusive
      → s.mem.data_lock ≡ locked_by exclusive
      → t ≢ u
      → s.pc t ≡ wait l (asleep k)
      → IsTicket l t k
      → is_among l (lists_after exclusive) ≡ true
      → elem k (lane l s.mem).queue ≡ true
      → let s' = run s (only u (drop_turns exclusive s.mem)) in
        (s'.pc u ≡ idle) × ((run s' (only t (go ∷ go ∷ go ∷ go ∷ []))).pc t ≡ wanted l)
  last_drop_hands_over s t u k exclusive l t_real u_real free owner e apart sleeps own among
        entered =
      let s' : System A = run s (only u (drop_turns exclusive s.mem)) in
      let ran = run-only u (drop_turns exclusive s.mem) s u_real in
      let (free', unlocked_now, awake) =
        subst (Dropped l k) (sym (mem_dropped s u exclusive u_real free owner e))
          (drains-Dropped exclusive l k s.mem free among entered) in
      let woken =
        solo_woken t k l s'.mem (s'.pc t) (ran.2 t ∙ ground arith) free' unlocked_now own awake in
      (
        ran.2 u
            ∙ update_here s.pc u (solo u (drop_turns exclusive s.mem) (s.mem, s.pc u)).1
            ∙ ap (λ p. (solo u (drop_turns exclusive s.mem) (s.mem, p)).1) owner
            ∙ ap (λ r. r.1) (solo-drop u exclusive s.mem free e),
        (run-only t four s' (ground (arith, ran.0))).2 t
            ∙ update_here s'.pc t (solo t four (s'.mem, s'.pc t)).1
            ∙ woken,
      )
