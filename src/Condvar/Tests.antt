-- ===== src/Condvar/Tests.antt =====
-- The theorems on a condition variable, for a few waiters and one notifier.
use wasm_safe_thread.Base.{
  Bool, ltb, ℕ, ◌≢◌, ◌≡◌, refl, true, false, List, [], ◌∷◌, ◌||◌, ◌⊎◌, arith, elem, pop_last,
  update,
}
use wasm_safe_thread.Condvar.State.{How, block, async, Cond, new, list, woken}
use wasm_safe_thread.Condvar.Notify.{notify, notify_one, notify_all, done}
use wasm_safe_thread.Condvar.Wait.{
  wait, wait_block, go, spurious, expired, relock, await_flag, sleep,
}
use wasm_safe_thread.Condvar.Machine.{
  Choice, event, lock, start_wait, start_one, turn, step, run, init,
}
use wasm_safe_thread.Condvar.Safety.{is_notifying, no_waiter_forgotten}
use wasm_safe_thread.Condvar.Wait
use wasm_safe_thread.Condvar.Deadline.{waits, at_test, late_notification}
use wasm_safe_thread.Condvar.Laws.{
  after, notify_all_turns, notifications_lem, spurious_wakeup_takes_notification,
}

-- Thread 1 locks the mutex and waits.
abbrev one_waits : How → List (ℕ × Choice)
one_waits h =
    (1, lock) ∷ (1, event go) ∷ (1, start_wait h false) ∷ (1, event go) ∷ (1, event go) ∷ []

-- Then thread 0 notifies one.
abbrev notified : How → List (ℕ × Choice)
notified h =
    (1, lock)
    ∷ (1, event go)
    ∷ (1, start_wait h false)
    ∷ (1, event go)
    ∷ (1, event go)
    ∷ (0, start_one)
    ∷ (0, event go)
    ∷ (0, event go)
    ∷ (0, event go)
    ∷ (0, event go)
    ∷ []

nobody_notifies : (u : ℕ) → is_notifying ((run init (notified block)).pc u) ≡ false
unfolding run step turn wait wait_block notify
nobody_notifies u = ground arith

no_waiter_forgotten_example :
    (woken block (run init (notified block)).cond 1 ≡ true)
    ⊎ (elem 1 (list block (run init (notified block)).cond) ≡ true)
unfolding run step turn wait wait_block notify
no_waiter_forgotten_example = no_waiter_forgotten block (notified block) 1 1 nobody_notifies refl

abbrev three_lists : Cond
three_lists = record new {
  waiting_spin_threads = 0 ∷ [];
  waiting_sync_threads = 5 ∷ 6 ∷ [];
  waiting_async_threads = 1 ∷ 2 ∷ [];
  next = 3;
}

notifications_example :
    (after 4 (three_lists, notify_one)
      ≡ (record three_lists { waiting_spin_threads = []; flag = update (λ _. false) 0 true }, done))
    × (let r = after (notify_all_turns three_lists) (three_lists, notify_all) in
        (r.1 ≡ done)
        × ((h : How) → list h r.0 ≡ [])
        × ((h : How) (k : ℕ)
            → woken h r.0 k ≡ (elem k (list h three_lists) || woken h three_lists k)))
unfolding pop_last
notifications_example = notifications_lem three_lists

-- The notifier takes task 2, whose deadline passes.
abbrev two_tasks : Cond
two_tasks = record new { waiting_async_threads = 1 ∷ 2 ∷ []; next = 3 }

late_notification_example :
    let a = after 3 (two_tasks, notify_one) in
    let b = waits async 9 2 (a.0, at_test async 2) in
    let n = notify b.0 a.1 in
    let d = waits async 9 2 (n.0, b.1) in
    (n.1 ≡ done)
    × (d.1 ≡ Wait.done true)
    × (list async d.0 ≡ 1 ∷ [])
    × ((u : ℕ) → u ≢ 2 → woken async d.0 u ≡ false)
late_notification_example =
    late_notification async 9 2 two_tasks (1 ∷ []) (refl, refl) refl refl refl refl refl

abbrev two_parked : Cond
two_parked = record new { waiting_sync_threads = 5 ∷ 6 ∷ [] }

spurious_wakeup_example :
    let r = wait_block spurious 6 two_parked (sleep 6) in
    (r.1 ≡ relock false)
    × (list block (after 4 (r.0, notify_one)).0 ≡ 5 ∷ [])
    × ((after 4 (r.0, notify_one)).0.token 5 ≡ false)
spurious_wakeup_example =
    spurious_wakeup_takes_notification 6 5 two_parked (5 ∷ []) refl refl (λ e. omega arith)

-- The wait goes on while the number is below 3.
abbrev below_three : ℕ → Bool × ℕ
below_three x = (ltb x 3, x)
