-- ===== src/Parking/Machine.antt =====
-- One thread that parks on its word, and any number of threads that unpark it, in any interleaving.
use wasm_safe_thread.Base.{ℕ, Bool, true, false, List, [], ◌∷◌, if◌then◌else◌, ◌==◌, update}

-- What `Atomics.wait` answers, and what the two functions do.
pub data Wake : Type 0 where
  ok not_equal timed_out unsupported : Wake

-- The owner runs; before the compare-exchange, and before `Atomics.wait`; in the word's list of
-- waiters; before the store that consumes the token; returned; and panicked, where it may not wait.
pub data ParkPc : Type 0 where
  running : ParkPc
  exchange wait asleep : (timed : Bool) → ParkPc
  clear : (timed : Bool) → Wake → ParkPc
  returned : Wake → ParkPc
  panicked : ParkPc

-- Before `unpark`; before its store, and before its notification.
pub data UnparkPc : Type 0 where
  idle store notify : UnparkPc

-- The owner parks, takes a turn, or its timeout fires.
pub data Choice : Type 0 where
  park park_timeout go timeout : Choice

pub data Event : Type 0 where
  mine : Choice → Event
  other : (u : ℕ) → Event

-- `Atomics.wait(i32, index, 0)`: it throws where the context may not block, and does not wait if
-- the word is not 0.
abbrev pub atomics_wait : Bool → Bool → ℕ → ParkPc
atomics_wait supported timed word =
    if supported
    then (if word == 0 then asleep timed else clear timed not_equal)
    else returned unsupported

-- `park_wait_at_addr` stores 0 after every wait, and `park_wait_timeout_at_addr` after "ok" alone.
abbrev pub consume : Bool → Wake → ℕ → ℕ
consume false r word = 0
consume true ok word = 0
consume true _ word = word

-- `park` and `park_timeout` panic if the context may not block.
abbrev pub after_park : Wake → ParkPc
after_park unsupported = panicked
after_park _ = running

unfoldable pub park_turn : Bool → Choice → ℕ → ParkPc → ℕ × ParkPc
park_turn supported park word running = (word, exchange false)
park_turn supported park_timeout word running = (word, exchange true)
park_turn supported c word running = (word, running)
park_turn supported c word (exchange timed) =
    if word == 1 then (0, returned ok) else (word, wait timed)
park_turn supported c word (wait timed) = (word, atomics_wait supported timed word)
park_turn supported timeout word (asleep true) = (word, clear true timed_out)
park_turn supported c word (asleep timed) = (word, asleep timed)
park_turn supported c word (clear timed r) = (consume timed r word, returned r)
park_turn supported c word (returned r) = (word, after_park r)
park_turn supported c word panicked = (word, panicked)

-- `Atomics.notify(i32, index, 1)` wakes the owner if it is in the list.
abbrev pub woken : ParkPc → ParkPc
woken (asleep timed) = clear timed ok
woken p = p

-- `supported` says whether the owner's context may block.
pub record System : Type 0 where
  pub supported : Bool
  pub word : ℕ
  pub owner : ParkPc
  pub others : ℕ → UnparkPc

-- `park_notify_at_addr`.
unfoldable pub unpark_turn : ℕ → UnparkPc → System → System
unpark_turn u idle s = record s { others = update s.others u store }
unpark_turn u store s = record s { word = 1; others = update s.others u notify }
unpark_turn u notify s = record s { owner = woken s.owner; others = update s.others u idle }

unfoldable pub step : System → Event → System
unfolding park_turn unpark_turn
step s (mine c) =
    let r = park_turn s.supported c s.word s.owner in record s { word = r.0; owner = r.1 }
step s (other u) = unpark_turn u (s.others u) s

-- `parking_state: AtomicU32::new(0)`.
abbrev pub init : Bool → System
init supported = record { supported = supported; word = 0; owner = running; others = λ _. idle }

unfoldable pub run : System → List Event → System
run s [] = s
run s (e ∷ es) = run (step s e) es

-- What every turn keeps, every schedule keeps.
pub run_inv :
    (P : System → Type 0)
    → ((s : System) (e : Event) → P s → P (step s e))
    → (s : System) (es : List Event) → P s
    → P (run s es)
unfolding run
run_inv P keep s [] v = v
run_inv P keep s (e ∷ es) v = run_inv P keep (step s e) es (keep s e v)
