-- ===== src/Executor/Tests.antt =====
-- Futures on the executors: one that yields twice and gives 7, with a limit of five polls, and one that
-- awaits a timer.
use wasm_safe_thread.Base.{ℕ, ◌≡◌, refl, false, true, none, some, List, [], ◌∷◌, arith}
use wasm_safe_thread.Executor.Worker.{
  microtask, event, Await, arrives, look, Event, spawn_keeps_no_browser_worker, Worker,
  awaits_event, step, start,
}
use wasm_safe_thread.Executor.Worker
use wasm_safe_thread.Executor.Spawn.{spawn, yield_once, poll_yields, spawn_returns_first_ready}

abbrev seven : ℕ
seven = 7

spawn_returns_first_ready_example : spawn (poll_yields seven) 5 (2, false) ≡ some seven
unfolding poll_yields yield_once
spawn_returns_first_ready_example =
    spawn_returns_first_ready (poll_yields seven) 2 5 (2, false) seven (refl, (refl, tt)) refl

-- A future that awaits a microtask and then a timer.
abbrev timer : List Await
timer = microtask ∷ event ∷ []

abbrev rings : List Event
rings = look ∷ arrives ∷ []

spawn_keeps_no_browser_worker_example :
    (Worker.spawn seven false timer rings ≡ some seven)
    × (Worker.spawn seven true timer rings ≡ none)
    × ((Worker.run seven (Worker.start_as seven true true timer) rings).sent ≡ some seven)
spawn_keeps_no_browser_worker_example =
    spawn_keeps_no_browser_worker seven true timer rings (omega arith)
