-- ===== src/Condvar/Deadline.antt =====
-- A notification that comes at the deadline of a timed wait, in src/condvar/wait_block.rs, wait_spin.rs
-- and wait_async.rs.
use wasm_safe_thread.Base.{
  ℕ, zero, suc, ◌≡◌, ◌≢◌, refl, Bool, true, false, List, [], ◌==◌, arith, elem, update, push,
  pop-push,
}
use wasm_safe_thread.Condvar.State.{How, spin, block, async, Cond, list, set_list, woken, wake_one}
use wasm_safe_thread.Condvar.Notify.{notify, notify_one, wake, done}
use wasm_safe_thread.Condvar.Wait
use wasm_safe_thread.Condvar.Wait.{
  Event, WaitPc, late, wait, wait_block, check, sleep, expired, await_flag, relock, spurious,
}
use wasm_safe_thread.Condvar.Laws.{after}

-- `notify_one` finds the list `h` first, and pops it with this turn.
abbrev pub NoneBefore : How → Cond → Type 0
NoneBefore spin c = Unit {0}
NoneBefore block c = c.waiting_spin_threads ≡ []
NoneBefore async c = (c.waiting_spin_threads ≡ []) × (c.waiting_sync_threads ≡ [])

abbrev pub pops : How → ℕ
pops spin = 1
pops block = 2
pops async = 3

popped_last :
    (h : How) (c : Cond) (xs : List ℕ) (k : ℕ)
    → NoneBefore h c
    → list h c ≡ push xs k
    → after (pops h) (c, notify_one) ≡ (set_list h xs c, wake h k)
unfolding after notify
popped_last spin c xs k e l = rw (l, pop-push xs k) refl
popped_last block c xs k e l = rw (e, l, pop-push xs k) refl
popped_last async c xs k e l = rw (e.0, e.1, l, pop-push xs k) refl

-- A timed waiter at the test of its deadline, and `n` turns of it, after the deadline.
abbrev pub at_test : How → ℕ → WaitPc
at_test block k = check k
at_test _ k = sleep k

unfoldable pub waits : How → ℕ → ℕ → Cond × WaitPc → Cond × WaitPc
waits h t zero r = r
waits h t (suc n) r = waits h t n (wait h true late t r.0 r.1)

abbrev pub is_entry : How → (t k : ℕ) → Bool
is_entry block t k = t == k
is_entry _ t k = true

abbrev pub is_async : How → Bool
is_async async = true
is_async _ = false

-- After its deadline a thread that spins waits for its flag, one that parks relocks, and a task relocks
-- with a timeout.
abbrev undecided : How → ℕ → WaitPc
undecided spin k = await_flag k
undecided block k = relock false
undecided async k = relock true

expires :
    (h : How) (t k : ℕ) (c : Cond) (xs : List ℕ)
    → is_entry h t k ≡ true
    → elem k xs ≡ false
    → woken h c k ≡ false
    → waits h t 2 (set_list h xs c, at_test h k) ≡ (set_list h xs c, undecided h k)
unfolding waits wait
expires spin t k c xs own out quiet = rw (quiet, out) refl
expires block t k c xs own out quiet = let same : t ≡ k = ground arith in rw (same, out) refl
expires async t k c xs own out quiet = rw (quiet, out) refl

-- It is woken, and relocks.
relocks :
    (h : How) (t k : ℕ) (c : Cond) (xs : List ℕ)
    → c.mutex ≡ false
    → waits h t 2 (wake_one h k (set_list h xs c), undecided h k)
      ≡ (record (wake_one h k (set_list h xs c)) { mutex = true }, Wait.done (is_async h))
unfolding waits wait
relocks spin t k c xs free =
    let set : update c.flag k true k ≡ true = ground arith in rw (set, free) refl
relocks block t k c xs free = rw free refl
relocks async t k c xs free = rw free refl

spent :
    (h : How) (c : Cond) (xs : List ℕ) (k : ℕ)
    → list h (record (wake_one h k (set_list h xs c)) { mutex = true }) ≡ xs
spent spin c xs k = refl
spent block c xs k = refl
spent async c xs k = refl

others_asleep :
    (h : How) (c : Cond) (xs : List ℕ) (k u : ℕ)
    → u ≢ k
    → woken h (record (wake_one h k (set_list h xs c)) { mutex = true }) u ≡ woken h c u
others_asleep spin c xs k u ne = ground arith
others_asleep block c xs k u ne = ground arith
others_asleep async c xs k u ne = ground arith

-- Whether a notification counts that comes at a waiter's deadline. Of a waiter `t` whose entry `k` is
-- the last in its list, the only one of that entry, and not woken yet, while the lists that
-- `notify_one` asks before are empty and the mutex is free: `notify_one` pops the entry, then the
-- waiter finds that its deadline has passed, then the notifier wakes the entry, and the waiter goes
-- on. Then the wait ends with the mutex, and a thread that parks or spins reports no timeout, but a
-- task reports one; the notification is spent in either case, the other entries `xs` stay in the list,
-- and none of their waiters is woken.
pub late_notification :
    (h : How) (t k : ℕ) (c : Cond) (xs : List ℕ)
    → NoneBefore h c
    → list h c ≡ push xs k
    → is_entry h t k ≡ true
    → elem k xs ≡ false
    → woken h c k ≡ false
    → c.mutex ≡ false
    → let a = after (pops h) (c, notify_one) in
      let b = waits h t 2 (a.0, at_test h k) in
      let n = notify b.0 a.1 in
      let d = waits h t 2 (n.0, b.1) in
      (n.1 ≡ done)
      × (d.1 ≡ Wait.done (is_async h))
      × (list h d.0 ≡ xs)
      × ((u : ℕ) → u ≢ k → woken h d.0 u ≡ woken h c u)
unfolding notify
late_notification h t k c xs first entry own out quiet free =
    rw (popped_last h c xs k first entry, expires h t k c xs own out quiet, relocks h t k c xs free)
      (refl, refl, spent h c xs k, others_asleep h c xs k)
