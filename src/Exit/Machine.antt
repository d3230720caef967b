-- ===== src/Exit/Machine.antt =====
-- The owner of the handle and the host of the worker, in any interleaving.
use wasm_safe_thread.Base.{
  ℕ, suc, ◌+◌, ◌%◌, Bool, true, false, not, ◌||◌, ◌&&◌, List, [], ◌∷◌, if◌then◌else◌, ◌==◌,
}

-- The block: 0 = running, 1 = exited, 2 = exited with an error; and the number of its owners, a
-- `u32`. `misused` says that it was read or written after it was freed, or freed twice.
pub record Block : Type 0 where
  pub exit_code : ℕ
  pub ref_count : ℕ
  pub allocated : Bool
  pub misused : Bool

-- `Box::new([AtomicU32::new(0), AtomicU32::new(2)])`.
abbrev pub new : Block
new = record { exit_code = 0; ref_count = 2; allocated = true; misused = false }

-- Any access to the block.
abbrev pub touch : Block → Block
touch b = record b { misused = b.misused || not b.allocated }

-- `drop(Box::from_raw(ptr))`.
abbrev pub free : Block → Block
free b = record b { allocated = false; misused = b.misused || not b.allocated }

-- A `fetch_sub(1)` of the number of owners.
abbrev pub release_one : Block → Block
release_one b = record (touch b) { ref_count = (b.ref_count + 4294967295) % 4294967296 }

-- The handle: held; in `wait_for_exit_async` before its first load, before `Atomics.waitAsync`, in
-- the list of waiters, before its last load, and in the loop that polls; with the exit code; before
-- the `fetch_sub` of its drop, and before it frees the block; and dropped.
pub data HandlePc : Type 0 where
  holding load wait_async waiting reload poll : HandlePc
  joined : (code : ℕ) → HandlePc
  dropping freeing gone : HandlePc

-- The host: between events; in `signalExit` before the store and before the notification; in
-- `decrementRefCountAndCleanup` before the subtraction, and before the cleanup handler.
pub data HostPc : Type 0 where
  idle : HostPc
  signal : (code : ℕ) → HostPc
  notify release cleanup : HostPc

-- `join` is `join_async` once it has the thread's result; a handle is dropped unjoined, and after
-- `join` and a `join_async` that got an error, by `drop`.
pub data Choice : Type 0 where
  go join drop : Choice

-- The handle's owner takes a turn; the worker's exit or error arrives at the host; the host takes a
-- turn.
pub data Event : Type 0 where
  handle : Choice → Event
  exited failed host : Event

-- `delivered` counts the exits and errors that arrived; `has_wait_async` says whether
-- `Atomics.waitAsync` is there, and `has_cleanup_handler` whether the host's script has its
-- `__cleanup_handler`.
pub record System : Type 0 where
  pub has_wait_async : Bool
  pub has_cleanup_handler : Bool
  pub block : Block
  pub handle_pc : HandlePc
  pub host_pc : HostPc
  pub delivered : ℕ

abbrev pub unless_running : ℕ → HandlePc → HandlePc
unless_running code p = if code == 0 then p else joined code

-- `JoinHandle::drop`.
abbrev pub drop_handle : Block → Block × HandlePc
drop_handle b = (release_one b, if b.ref_count == 1 then freeing else gone)

unfoldable pub handle_turn : Bool → Choice → Block → HandlePc → Block × HandlePc
handle_turn w join b holding = (b, load)
handle_turn w drop b holding = (b, dropping)
handle_turn w c b holding = (b, holding)
handle_turn w c b load = (touch b, unless_running b.exit_code (if w then wait_async else poll))
handle_turn w c b wait_async = (touch b, if b.exit_code == 0 then waiting else reload)
handle_turn w c b waiting = (b, waiting)
handle_turn w c b reload = (touch b, joined b.exit_code)
handle_turn w c b poll = (touch b, unless_running b.exit_code poll)
handle_turn w c b (joined code) = (b, dropping)
handle_turn w c b dropping = drop_handle b
handle_turn w c b freeing = (free b, gone)
handle_turn w c b gone = (b, gone)

-- `Atomics.notify` resolves the promise of the waiter.
abbrev pub resolved : HandlePc → HandlePc
resolved waiting = reload
resolved p = p

-- An exit or error finds the host between events, since JavaScript runs its handlers one by one.
abbrev pub arrive : ℕ → HostPc → System → System
arrive code idle s = record s { host_pc = signal code; delivered = suc s.delivered }
arrive code _ s = s

unfoldable pub host_turn : HostPc → System → System
host_turn idle s = s
host_turn (signal code) s = record s {
  block = record (touch s.block) { exit_code = code };
  host_pc = notify;
}
host_turn notify s = record s { handle_pc = resolved s.handle_pc; host_pc = release }
host_turn release s = record s {
  block = release_one s.block;
  host_pc = if s.block.ref_count == 1 && s.has_cleanup_handler then cleanup else idle;
}
host_turn cleanup s = record s { block = free s.block; host_pc = idle }

unfoldable pub step : System → Event → System
unfolding handle_turn host_turn
step s (handle c) =
    let r = handle_turn s.has_wait_async c s.block s.handle_pc in
    record s { block = r.0; handle_pc = r.1 }
step s exited = arrive 1 s.host_pc s
step s failed = arrive 2 s.host_pc s
step s host = host_turn s.host_pc s

abbrev pub init_with : (has_cleanup_handler w : Bool) → System
init_with has_cleanup_handler w = record {
  has_wait_async = w;
  has_cleanup_handler = has_cleanup_handler;
  block = new;
  handle_pc = holding;
  host_pc = idle;
  delivered = 0;
}

-- A host that has the cleanup handler.
abbrev pub init : Bool → System
init w = init_with true w

unfoldable pub run : System → List Event → System
run s [] = s
run s (e ∷ es) = run (step s e) es

-- What every turn keeps, every schedule keeps.
pub run_inv :
    (P : System → Type 0)
    → ((s : System) (e : Event) → P s → P (step s e))
    → (s : System) (es : List Event) → P s
    → P (run s es)
unfolding run
run_inv P keep s [] v = v
run_inv P keep s (e ∷ es) v = run_inv P keep (step s e) es (keep s e v)
