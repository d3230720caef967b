-- ===== src/Threads/EndsTests.antt =====
-- The theorems on the beginning and the end of a worker, for a few events and scripts.
use wasm_safe_thread.Base.{ℕ, ◌++◌, ◌≡◌, refl, true, false, some, List, [], ◌∷◌, ◌||◌, arith}
use wasm_safe_thread.Exit.Machine.{
  handle, exited, failed, host, go, join, drop, handle_turn, host_turn,
}
use wasm_safe_thread.Exit.Machine
use wasm_safe_thread.Exit.Safety.{handle_owns, host_owns, handle_frees, host_frees, handled}
use wasm_safe_thread.Threads.Identity.{Thread, eq, running}
use wasm_safe_thread.Threads.Identity
use wasm_safe_thread.Threads.Builder.{by_name, spawn_by, spawn_named, spawn_with, handle_is_current}
use wasm_safe_thread.Threads.PanicHook.{
  is_holding, panic, sent, by_standard, starting_threads_take_hook,
}
use wasm_safe_thread.Threads.PanicHook
use wasm_safe_thread.Threads.Reports.{
  Course, node_script, node_tells, reports, script_is_reported_once,
}
use wasm_safe_thread.Threads.Endings.{ended, join_result, join_agrees_with_script}

-- The main thread, worker 0, asks for its thread and spawns worker 1, which starts.
abbrev main_asks : List Identity.Event
main_asks = Identity.current 0 true ∷ []

abbrev starts : List Identity.Event
starts = Identity.start 1 ∷ Identity.current 1 false ∷ []

abbrev main_thread : Thread
main_thread = record { name = some "main"; id = 0 }

abbrev io : Thread
io = record { name = some "io"; id = 1 }

handle_is_current_example :
    let r = spawn_by (by_name "io") 1 (Identity.run Identity.init main_asks) in
    ((Identity.run r.0 starts).slot 1 ≡ running r.1)
    × (r.1.name ≡ some "io")
    × (eq main_thread io ≡ false)
unfolding Identity.run Identity.step spawn_named spawn_with
handle_is_current_example =
    handle_is_current (by_name "io") 1 main_asks starts 0 1 main_thread io refl refl (omega arith)
      refl refl

-- Thread 0 runs its closure, and threads 1 and 2 are about to take the panic hook.
abbrev two_start : List PanicHook.Event
two_start =
    PanicHook.begin 0 ∷ PanicHook.go 0 ∷ PanicHook.go 0 ∷ PanicHook.begin 1 ∷ PanicHook.begin 2 ∷ []

nobody_holds : (x : ℕ) → is_holding ((PanicHook.run PanicHook.init two_start).pc x) ≡ false
unfolding PanicHook.run PanicHook.step PanicHook.turn
nobody_holds x = ground arith

starting_threads_take_hook_example :
    let s = PanicHook.run PanicHook.init two_start in
    (panic 0 s ≡ sent)
    × (panic 0 (PanicHook.run s (PanicHook.go 1 ∷ [])) ≡ by_standard)
    × (panic 0 (PanicHook.run s (PanicHook.go 1 ∷ PanicHook.go 1 ∷ [])) ≡ sent)
    × (panic 3
          (PanicHook.run s (PanicHook.go 1 ∷ PanicHook.go 1 ∷ PanicHook.go 2 ∷ PanicHook.go 2 ∷ []))
        ≡ panic 3 s)
    × (panic 3
          (PanicHook.run s (PanicHook.go 1 ∷ PanicHook.go 2 ∷ PanicHook.go 1 ∷ PanicHook.go 2 ∷ []))
        ≡ by_standard)
unfolding PanicHook.run PanicHook.step PanicHook.turn
starting_threads_take_hook_example =
    starting_threads_take_hook two_start 0 1 2 3 refl refl refl refl (λ e. omega arith) nobody_holds

-- A script of which the entry point throws, in Node.
abbrev entry_throws : Course
entry_throws = record {
  imports = true;
  has_init = true;
  init_returns = true;
  has_entry = true;
  entry_returns = false;
  has_pending_tasks = true;
  looks = [];
}

-- The handle waits in `join_async`; the worker exits with code 1; and the handle has its code.
abbrev joined_error : List Machine.Event
joined_error = handle join ∷ handle go ∷ handle go ∷ [] ++ (handled failed ++ handle go ∷ [])

script_is_reported_once_example :
    let s = Machine.run (Machine.init true) joined_error in
    (s.block.misused ≡ false)
    × (s.block.allocated ≡ (
        handle_owns s.handle_pc
        || host_owns s.delivered s.host_pc
        || handle_frees s.handle_pc
        || host_frees s.host_pc))
unfolding reports node_script node_tells
script_is_reported_once_example = script_is_reported_once false entry_throws true joined_error refl

join_agrees_with_script_example :
    join_result (Machine.run (Machine.init true) joined_error).handle_pc ≡ some false
unfolding reports node_script node_tells Machine.run Machine.step handle_turn host_turn ended
join_agrees_with_script_example =
    join_agrees_with_script false entry_throws true joined_error refl refl
