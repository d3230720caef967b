-- ===== src/Condvar/Wait.antt =====
-- src/condvar/wait_block.rs, wait_spin.rs, wait_async.rs and wait_sync.rs: the waits of one thread,
-- from the registration to the guard that they return.
use wasm_safe_thread.Base.{
  ℕ, suc, Bool, true, false, List, [], ◌∷◌, if◌then◌else◌, ◌==◌, elem, update, push,
}
use wasm_safe_thread.Condvar.State.{How, spin, block, async, Cond, list, set_list, wake_one}

-- Before the registration; before the drop of the guard; at the deadline test; asleep (in `park`,
-- polling the flag, or awaiting the continuation); after `park_timeout`; after the deadline; waiting
-- for a flag that a notifier is about to set; and before the guard is back, with the result. `k` is
-- what the thread is registered under.
pub data WaitPc : Type 0 where
  register : WaitPc
  release check sleep recheck expired await_flag : (k : ℕ) → WaitPc
  relock done : (timed_out : Bool) → WaitPc

-- What the environment decides: nothing; that the deadline has passed or a timeout has fired; that
-- `park` returns for no reason.
pub data Event : Type 0 where
  go late spurious : Event

-- `threads.remove(pos)` at the first position of `k`.
abbrev pub remove : ℕ → List ℕ → List ℕ
remove k [] = []
remove k (x ∷ xs) = if x == k then xs else x ∷ remove k xs

abbrev pub deregister : How → ℕ → Cond → Cond
deregister h k c = set_list h (remove k (list h c)) c

-- `push` of the own thread, or of a new flag or continuation.
abbrev pub enlist : How → ℕ → Cond → Cond × WaitPc
enlist spin t c = (
  record c { waiting_spin_threads = push c.waiting_spin_threads c.next; next = suc c.next },
  release c.next,
)
enlist block t c = (record c { waiting_sync_threads = push c.waiting_sync_threads t }, release t)
enlist async t c = (
  record c { waiting_async_threads = push c.waiting_async_threads c.next; next = suc c.next },
  release c.next,
)

-- `mutex.lock_sync()` or `lock_async().await`: it waits until the mutex is free.
abbrev pub lock : Bool → Cond → Cond × WaitPc
lock timed_out c =
    if c.mutex then (c, relock timed_out) else (record c { mutex = true }, done timed_out)

-- `drop(guard)`.
abbrev pub unlock : Cond → Cond
unlock c = record c { mutex = false }

-- `park` returns and takes the token.
abbrev pub consume : ℕ → Cond → Cond
consume t c = record c { token = update c.token t false }

-- `wait_block`.
unfoldable pub wait_block : Event → ℕ → Cond → WaitPc → Cond × WaitPc
wait_block e t c register = enlist block t c
wait_block e t c (release k) = (unlock c, sleep k)
wait_block spurious t c (sleep k) = (c, relock false)
wait_block e t c (sleep k) = if c.token t then (consume t c, relock false) else (c, sleep k)
wait_block e t c (relock b) = lock b c
wait_block e t c p = (c, p)

-- The test of the clock at the head of the loop.
abbrev pub at_deadline : Event → ℕ → WaitPc
at_deadline late k = expired k
at_deadline _ k = sleep k

-- `park_timeout`: it returns at the timeout, or for no reason; a token is consumed.
abbrev pub park_timeout : Event → ℕ → ℕ → Cond → Cond × WaitPc
park_timeout go t k c = if c.token t then (consume t c, recheck k) else (c, sleep k)
park_timeout _ t k c = if c.token t then (consume t c, recheck k) else (c, recheck k)

-- `wait_block_timeout`: `recheck` and `expired` look for the own thread in the list.
unfoldable pub wait_block_timeout : Event → ℕ → Cond → WaitPc → Cond × WaitPc
wait_block_timeout e t c register = enlist block t c
wait_block_timeout e t c (release k) = (unlock c, check k)
wait_block_timeout e t c (check k) = (c, at_deadline e k)
wait_block_timeout e t c (sleep k) = park_timeout e t k c
wait_block_timeout e t c (recheck k) =
    (c, if elem t c.waiting_sync_threads then check k else relock false)
wait_block_timeout e t c (expired k) =
    if elem t c.waiting_sync_threads then (deregister block t c, relock true) else (c, relock false)
wait_block_timeout e t c (relock b) = lock b c
wait_block_timeout e t c p = (c, p)

-- `wait_spin`.
unfoldable pub wait_spin : Event → ℕ → Cond → WaitPc → Cond × WaitPc
wait_spin e t c register = enlist spin t c
wait_spin e t c (release k) = (unlock c, sleep k)
wait_spin e t c (sleep k) = (c, if c.flag k then relock false else sleep k)
wait_spin e t c (relock b) = lock b c
wait_spin e t c p = (c, p)

-- `wait_spin_timeout`: after the deadline a thread that is no longer in the list waits for its flag.
unfoldable pub wait_spin_timeout : Event → ℕ → Cond → WaitPc → Cond × WaitPc
wait_spin_timeout e t c register = enlist spin t c
wait_spin_timeout e t c (release k) = (unlock c, sleep k)
wait_spin_timeout e t c (sleep k) = (c, if c.flag k then relock false else at_deadline e k)
wait_spin_timeout e t c (expired k) =
    if elem k c.waiting_spin_threads then (deregister spin k c, relock true) else (c, await_flag k)
wait_spin_timeout e t c (await_flag k) = (c, if c.flag k then relock false else await_flag k)
wait_spin_timeout e t c (relock b) = lock b c
wait_spin_timeout e t c p = (c, p)

-- `wait_async`.
unfoldable pub wait_async : Event → ℕ → Cond → WaitPc → Cond × WaitPc
wait_async e t c register = enlist async t c
wait_async e t c (release k) = (unlock c, sleep k)
wait_async e t c (sleep k) = (c, if c.sent k then relock false else sleep k)
wait_async e t c (relock b) = lock b c
wait_async e t c p = (c, p)

-- `wait_async_timeout`: `Race::poll` asks for the notification first. A task that lost the race
-- takes itself out of the list and completes its own continuation; if it is not in the list any
-- more, it reports a timeout all the same.
unfoldable pub wait_async_timeout : Event → ℕ → Cond → WaitPc → Cond × WaitPc
wait_async_timeout e t c register = enlist async t c
wait_async_timeout e t c (release k) = (unlock c, sleep k)
wait_async_timeout e t c (sleep k) = (c, if c.sent k then relock false else at_deadline e k)
wait_async_timeout e t c (expired k) =
    if elem k c.waiting_async_threads
    then (wake_one async k (deregister async k c), relock true)
    else (c, relock true)
wait_async_timeout e t c (relock b) = lock b c
wait_async_timeout e t c p = (c, p)

-- The six waits; `wait_sync` and `wait_sync_timeout` are those of `block` where the platform can
-- block, and those of `spin` elsewhere.
unfoldable pub wait : How → Bool → Event → ℕ → Cond → WaitPc → Cond × WaitPc
unfolding wait_block wait_block_timeout wait_spin wait_spin_timeout wait_async wait_async_timeout
wait block false = wait_block
wait block true = wait_block_timeout
wait spin false = wait_spin
wait spin true = wait_spin_timeout
wait async false = wait_async
wait async true = wait_async_timeout

abbrev pub wait_sync : Bool → How
wait_sync wait_supported = if wait_supported then block else spin
