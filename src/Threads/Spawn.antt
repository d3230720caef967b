-- ===== src/Threads/Spawn.antt =====
-- What a spawned thread runs, and what `join` and `join_async` give: src/stdlib.rs, and
-- `Builder::spawn` and `JoinHandle` of src/wasm/thread_api.rs. The channel between them is a message
-- that was sent, or none when its sender was dropped.
use Prim.Native.String.{String}
use wasm_safe_thread.Base.{ℕ, Bool, Option, none, some, List, [], ◌∷◌, if◌then◌else◌}
use wasm_safe_thread.Exit.Join.{is_joined_ok}

-- How a closure ends.
pub data Outcome (T : Type 0) : Type 0 where
  returns : T → Outcome T
  panics : String → Outcome T

-- What a join gives: the value; an error; or a panic of the joining thread.
pub data Joined (T : Type 0) : Type 0 where
  value : T → Joined T
  failed : String → Joined T
  join_panics : Joined T

-- `run_spawn_hooks`, of hooks that may panic: the message of the first that does.
abbrev pub run_all : List (Outcome (Unit {0})) → Option String
run_all [] = none
run_all (returns _ ∷ hs) = run_all hs
run_all (panics m ∷ hs) = some m

module _ {T : Type 0} where
  -- The closure of src/stdlib.rs: `catch_unwind` is around `f` alone, and a hook that panics unwinds
  -- the thread, which drops the sender.
  abbrev pub after_hooks : Option String → Outcome T → Option (Outcome T)
  after_hooks (some _) f = none
  after_hooks none f = some f

  unfoldable pub native_thread : List (Outcome (Unit {0})) → Outcome T → Option (Outcome T)
  native_thread hs f = after_hooks (run_all hs) f

  -- `join` and `join_async` of src/stdlib.rs: `recv().expect(…)`.
  unfoldable pub native_join : Option (Outcome T) → Joined T
  native_join none = join_panics
  native_join (some (returns v)) = value v
  native_join (some (panics m)) = failed m

-- What the closure of src/wasm/thread_api.rs does, in order.
pub data Effect (T : Type 0) : Type 0 where
  set_current set_panic_sender set_panic_hook clear_panic_sender flush set_finished : Effect T
  send : Outcome T → Effect T

-- `join_async` of an error of the worker.
abbrev pub exit_error : String
exit_error = "Worker exited with error"

module _ {T : Type 0} (display : String → String) where
  -- The panic hook takes `PANIC_SENDER`, marks the thread as finished, and sends `info.to_string()`.
  abbrev pub panic_hook : String → List (Effect T)
  panic_hook m = flush ∷ set_finished ∷ send (panics (display m)) ∷ []

  abbrev pub run_closure : Outcome T → List (Effect T)
  run_closure (returns v) = clear_panic_sender ∷ flush ∷ set_finished ∷ send (returns v) ∷ []
  run_closure (panics m) = panic_hook m

  abbrev pub unless_panicked : Option String → Outcome T → List (Effect T)
  unless_panicked (some m) f = panic_hook m
  unless_panicked none f = run_closure f

  unfoldable pub wasm_thread : List (Outcome (Unit {0})) → Outcome T → List (Effect T)
  wasm_thread hs f =
      set_current ∷ set_panic_sender ∷ set_panic_hook ∷ unless_panicked (run_all hs) f

module _ {T : Type 0} where
  -- The first message of the channel.
  abbrev pub received : List (Effect T) → Option (Outcome T)
  received [] = none
  received (send r ∷ es) = some r
  received (_ ∷ es) = received es

  -- The messages of the channel.
  abbrev pub sends : List (Effect T) → List (Outcome T)
  sends [] = []
  sends (send r ∷ es) = r ∷ sends es
  sends (_ ∷ es) = sends es

  abbrev pub of_message : Option (Outcome T) → Joined T
  of_message none = failed "Disconnected"
  of_message (some (returns v)) = value v
  of_message (some (panics m)) = failed m

  -- `join` of src/wasm/thread_api.rs, on the main thread or elsewhere.
  unfoldable pub wasm_join : Bool → Option (Outcome T) → Joined T
  wasm_join is_main_thread r =
      if is_main_thread then failed "Can't join from the main thread on wasm32" else of_message r

  -- `join_async` waits for the exit code of the worker only when it has a value.
  abbrev pub after_exit : ℕ → Joined T → Joined T
  after_exit code (value v) = if is_joined_ok code then value v else failed exit_error
  after_exit code j = j

  unfoldable pub wasm_join_async : ℕ → Option (Outcome T) → Joined T
  unfolding is_joined_ok
  wasm_join_async code r = after_exit code (of_message r)
