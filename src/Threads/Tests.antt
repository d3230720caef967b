-- ===== src/Threads/Tests.antt =====
-- The theorems on threads, for a few workers, hooks and tasks.
use Prim.Native.String.{String}
use wasm_safe_thread.Base.{
  ℕ, zero, suc, ◌++◌, ◌≡◌, refl, true, false, some, List, [], ◌∷◌, map, arith,
}
use wasm_safe_thread.Hooks.Registry.{hooks, register_spawn_hook}
use wasm_safe_thread.Condvar.State.{spin}
use wasm_safe_thread.Condvar.Notify.{notify}
use wasm_safe_thread.Condvar.Wait.{go}
use wasm_safe_thread.Mpsc.State.{Choice}
use wasm_safe_thread.Mpsc.Send.{send_turn}
use wasm_safe_thread.Mpsc.Recv.{recv_turn}
use wasm_safe_thread.Mpsc.Machine
use wasm_safe_thread.Mpsc.Machine.{turn}
use wasm_safe_thread.Threads.Channel.{join_gives_outcome}
use wasm_safe_thread.Threads.Relay.{Host, Payload, create, spawn_in_browser, spawn_is_relayed}
use wasm_safe_thread.Threads.Spawn.{
  failed, exit_error, Outcome, returns, panics, join_panics, native_thread, native_join,
  wasm_thread, wasm_join, wasm_join_async,
}
use wasm_safe_thread.Threads.Results.{shown_join, panicking_hook_breaks_native_join}
use wasm_safe_thread.Threads.Tasks.{
  begin, finish, poll, running, exited, worker_waits_for_tasks, unmatched_finish, polls, u32,
  task_begin, task_finished,
}
use wasm_safe_thread.Threads.Tasks

-- A panic's text, as the panic hook prints it.
abbrev display : String → String
display m = "panicked"

abbrev quiet_hooks : List (Outcome (Unit {0}))
quiet_hooks = returns tt ∷ []

abbrev gave_up : Outcome ℕ
gave_up = panics "no"

abbrev act : String → Outcome (Unit {0})
act m = panics m

panicking_hook_example :
    native_join {T = ℕ}
      (native_thread (map act (hooks (register_spawn_hook "log" "broken" []))) (returns 5))
    ≡ join_panics
panicking_hook_example =
    panicking_hook_breaks_native_join act "log" "broken" "broken" [] (returns 5) refl

-- Two tasks begin, and one has finished.
abbrev one_left : List Tasks.Event
one_left = begin ∷ begin ∷ poll ∷ finish ∷ []

worker_waits_for_tasks_example : (◌≡◌ {A = ℕ} 2 2) × (Tasks.step true (running 1) poll ≡ running 1)
unfolding Tasks.run Tasks.step task_begin task_finished
worker_waits_for_tasks_example =
    worker_waits_for_tasks true one_left 1 refl (omega arith) (omega arith)

-- The thread sends 5, and the join receives it.
abbrev turns : ℕ → ℕ → List (ℕ × Choice (Outcome ℕ))
turns t zero = []
turns t (suc n) = (t, Choice.event go) ∷ turns t n

abbrev sent_five : List (ℕ × Choice (Outcome ℕ))
sent_five = (1, Choice.send (returns 5)) ∷ turns 1 6 ++ ((0, Choice.receive spin false) ∷ turns 0 3)

join_gives_outcome_example :
    (wasm_join false (some (returns 5))
      ≡ shown_join display (native_join (native_thread {T = ℕ} quiet_hooks (returns 5))))
    × (wasm_join_async 1 (some (returns 5))
        ≡ shown_join display (native_join (native_thread {T = ℕ} quiet_hooks (returns 5))))
    × (wasm_join_async {T = ℕ} 2 (some (returns 5)) ≡ failed exit_error)
unfolding wasm_thread Machine.run Machine.step turn send_turn recv_turn notify
join_gives_outcome_example =
    join_gives_outcome {T = ℕ} display quiet_hooks (returns 5) 2 sent_five 0 (returns 5) refl refl
      refl

-- A worker of a worker of the main thread spawns a worker.
abbrev nested : List Host
nested =
    record {
      is_worker_global = true;
      can_relay_to_parent = true;
      posts = true;
      entry_name = "entry";
    }
    ∷ record {
      is_worker_global = true;
      can_relay_to_parent = true;
      posts = true;
      entry_name = "entry";
    }
    ∷ record {
      is_worker_global = false;
      can_relay_to_parent = false;
      posts = true;
      entry_name = "entry";
    }
    ∷ []

abbrev wanted : Payload
wanted = record {
  work = 64;
  module_of = 0;
  memory = 0;
  name = "io";
  shim_url = "app.js";
  exit_state_ptr = 128;
  worker_id = "io#128";
  entry_name = "entry";
}

spawn_is_relayed_example : spawn_in_browser wanted nested ≡ create wanted ∷ []
spawn_is_relayed_example = spawn_is_relayed wanted nested (refl, (refl, (refl, tt))) refl
