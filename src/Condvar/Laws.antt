-- ===== src/Condvar/Laws.antt =====
-- Notifications run to their end, and one that a thread which does not wait takes.
use wasm_safe_thread.Base.{
  ℕ, zero, suc, ◌≡◌, ◌≢◌, refl, ◌∙◌, Bool, true, false, List, [], ◌∷◌, ◌||◌, arith, elem, update,
  pop_last, push, pop-push,
}
use wasm_safe_thread.Condvar.State.{How, spin, block, async, Cond, list, set_list, woken, wake_one}
use wasm_safe_thread.Condvar.Notify.{
  NotifyPc, notify, notify_one, notify_all, wake_all, done, and_then,
}
use wasm_safe_thread.Condvar.Wait.{wait_block, sleep, relock, spurious}

-- A notifier after `n` turns, while the others stand still.
unfoldable pub after : ℕ → Cond × NotifyPc → Cond × NotifyPc
after zero r = r
after (suc n) r = after n (notify r.0 r.1)

-- `notify_one` as one step: it takes the last entry of the first list that has one, in the order
-- spin, sync, async, and wakes that waiter alone.
abbrev pub wake_last : How → List ℕ → Cond → Cond → Cond
wake_last h [] c otherwise = otherwise
wake_last h (x ∷ xs) c otherwise = wake_one h (pop_last x xs).0 (set_list h (pop_last x xs).1 c)

notify_one_lem :
    (c : Cond)
    → after 4 (c, notify_one) ≡ (
      wake_last spin c.waiting_spin_threads c
          (wake_last block c.waiting_sync_threads c (wake_last async c.waiting_async_threads c c)),
      done,
    )
unfolding after notify
notify_one_lem c = ground arith

-- What the loops of `notify_all` do to the flags, tokens and continuations.
pub wake_each : List ℕ → (ℕ → Bool) → ℕ → Bool
wake_each [] f = f
wake_each (x ∷ xs) f = wake_each xs (update f x true)

wake_each_lem : (xs : List ℕ) (f : ℕ → Bool) (k : ℕ) → wake_each xs f k ≡ (elem k xs || f k)
unfolding wake_each
wake_each_lem [] f k = refl
wake_each_lem (x ∷ xs) f k = ground (arith, wake_each_lem xs (update f x true) k)

abbrev wake_list : How → List ℕ → Cond → Cond
wake_list spin xs c = record c { flag = wake_each xs c.flag }
wake_list block xs c = record c { token = wake_each xs c.token }
wake_list async xs c = record c { sent = wake_each xs c.sent }

-- A turn for each, one for the end of the loop, and `n` more.
abbrev pub looped : List ℕ → ℕ → ℕ
looped [] n = suc n
looped (x ∷ xs) n = suc (looped xs n)

after-wake_all :
    (h : How) (xs : List ℕ) (n : ℕ) (c : Cond)
    → after (looped xs n) (c, wake_all h xs) ≡ after n (wake_list h xs c, and_then h)
unfolding after notify wake_each
after-wake_all spin [] n c = refl
after-wake_all block [] n c = refl
after-wake_all async [] n c = refl
after-wake_all spin (x ∷ xs) n c = after-wake_all spin xs n (wake_one spin x c)
after-wake_all block (x ∷ xs) n c = after-wake_all block xs n (wake_one block x c)
after-wake_all async (x ∷ xs) n c = after-wake_all async xs n (wake_one async x c)

-- The turns of `notify_all`: one to take each list, and its loop.
abbrev pub notify_all_turns : Cond → ℕ
notify_all_turns c = suc (
    looped c.waiting_spin_threads
      (suc (looped c.waiting_sync_threads (suc (looped c.waiting_async_threads 0)))))

notified_all : Cond → Cond
notified_all c = record c {
  waiting_spin_threads = [];
  waiting_sync_threads = [];
  waiting_async_threads = [];
  flag = wake_each c.waiting_spin_threads c.flag;
  token = wake_each c.waiting_sync_threads c.token;
  sent = wake_each c.waiting_async_threads c.sent;
}

after-notify_all : (c : Cond) → after (notify_all_turns c) (c, notify_all) ≡ (notified_all c, done)
unfolding after notify notified_all
after-notify_all c =
    after-wake_all spin c.waiting_spin_threads _ (set_list spin [] c)
    ∙ after-wake_all block c.waiting_sync_threads _ _
    ∙ after-wake_all async c.waiting_async_threads _ _

notify_all_lem :
    (c : Cond)
    → let r = after (notify_all_turns c) (c, notify_all) in
      (r.1 ≡ done)
      × ((h : How) → list h r.0 ≡ [])
      × ((h : How) (k : ℕ) → woken h r.0 k ≡ (elem k (list h c) || woken h c k))
unfolding notified_all
notify_all_lem c = rw (after-notify_all c) (refl, emptied, all_woken)
  where
    emptied : (h : How) → list h (notified_all c) ≡ []
    emptied spin = refl
    emptied block = refl
    emptied async = refl

    all_woken : (h : How) (k : ℕ) → woken h (notified_all c) k ≡ (elem k (list h c) || woken h c k)
    all_woken spin k = wake_each_lem c.waiting_spin_threads c.flag k
    all_woken block k = wake_each_lem c.waiting_sync_threads c.token k
    all_woken async k = wake_each_lem c.waiting_async_threads c.sent k

-- What the two notifications do. `notify_one` is done after at most four turns, and wakes the last
-- waiter of the first list that has one, in the order spin, sync, async, or nobody if all are empty.
-- `notify_all` ends after one turn for each waiter and two for each list: it empties the three lists,
-- sets the flag, gives the token or sends the continuation of every waiter that was in them, and
-- takes none back.
pub notifications_lem :
    (c : Cond)
    → (after 4 (c, notify_one) ≡ (
      wake_last spin c.waiting_spin_threads c
          (wake_last block c.waiting_sync_threads c (wake_last async c.waiting_async_threads c c)),
      done,
    ))
      × (let r = after (notify_all_turns c) (c, notify_all) in
          (r.1 ≡ done)
          × ((h : How) → list h r.0 ≡ [])
          × ((h : How) (k : ℕ) → woken h r.0 k ≡ (elem k (list h c) || woken h c k)))
notifications_lem c = (notify_one_lem c, notify_all_lem c)

pub wake_last-push :
    (xs : List ℕ) (t : ℕ) (c other : Cond)
    → wake_last block (push xs t) c other ≡ wake_one block t (set_list block xs c)
unfolding pop_last
wake_last-push [] t c other = refl
wake_last-push (x ∷ xs) t c other = ground (arith, pop-push (x ∷ xs) t)

first_woken :
    (t : ℕ) (c other : Cond) (spins blocks xs : List ℕ)
    → spins ≡ []
    → blocks ≡ push xs t
    → wake_last spin spins c (wake_last block blocks c other)
      ≡ wake_one block t (set_list block xs c)
first_woken t c other spins blocks xs empty entry = rw (empty, entry) (wake_last-push xs t c other)

next_woken :
    (t : ℕ) (c : Cond) (xs : List ℕ)
    → c.waiting_spin_threads ≡ []
    → c.waiting_sync_threads ≡ push xs t
    → (after 4 (c, notify_one)).0 ≡ wake_one block t (set_list block xs c)
next_woken t c xs empty entry = rw (notify_one_lem c) (first_woken t c _ _ _ xs empty entry)

-- A spurious return of `park` in `wait_block` leaves the thread in the list, although it waits no
-- more. When no thread waits by spinning and the entry of that thread is the last one in the list of
-- parked threads, the next `notify_one` takes that entry, and the other parked threads `xs` stay where
-- they are, none of them woken.
pub spurious_wakeup_takes_notification :
    (t u : ℕ) (c : Cond) (xs : List ℕ)
    → c.waiting_spin_threads ≡ []
    → c.waiting_sync_threads ≡ push xs t
    → u ≢ t
    → let r = wait_block spurious t c (sleep t) in
      (r.1 ≡ relock false)
      × (list block (after 4 (r.0, notify_one)).0 ≡ xs)
      × ((after 4 (r.0, notify_one)).0.token u ≡ c.token u)
unfolding wait_block
spurious_wakeup_takes_notification t u c xs empty entry ne =
    rw (next_woken t c xs empty entry) (refl, refl, ground arith)
