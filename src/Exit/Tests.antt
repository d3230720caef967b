-- ===== src/Exit/Tests.antt =====
-- The theorems on an exit state, for a handle that is joined or dropped and a worker that exits.
use wasm_safe_thread.Base.{◌≡◌, refl, true, false, List, [], ◌∷◌, ◌++◌, ◌||◌}
use wasm_safe_thread.Exit.Machine.{
  holding, go, drop, Event, handle, exited, failed, step, init, run, handle_turn,
}
use wasm_safe_thread.Exit.Safety.{handled, second_event_is_misuse}
use wasm_safe_thread.Exit.Handlers.{
  hosted_by, after_spawns, unregistered, init_handlers, only_first_spawner_frees,
}

second_event_is_misuse_example :
    let s' = run (init true) (handled failed ++ handled exited) in
    (s'.block.allocated ≡ false)
    × (s'.handle_pc ≡ holding)
    × ((run s' (handle drop ∷ handle go ∷ [])).block.misused ≡ true)
second_event_is_misuse_example = second_event_is_misuse (init true) true refl refl refl refl

-- The main thread, worker 0, spawns, and its worker 1 spawns a worker of which the handle is dropped.
abbrev drops : List Event
drops = handle drop ∷ handle go ∷ []

only_first_spawner_frees_example :
    let s = run (hosted_by 1 true (after_spawns (0 ∷ 1 ∷ []) unregistered)) drops in
    ((run s (handled exited)).block.allocated ≡ true)
    × (((run s (handled exited)).block.allocated || false) ≡ true)
unfolding run step handle_turn after_spawns init_handlers
only_first_spawner_frees_example =
    only_first_spawner_frees 0 (1 ∷ []) 1 true drops (handled exited) refl refl
