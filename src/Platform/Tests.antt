-- ===== src/Platform/Tests.antt =====
-- The feature test, on the main thread of a page, which may not block.
use wasm_safe_thread.Base.{
  ltb, arith, ◌+◌, ◌*◌, ◌/◌, ◌≤◌, ◌≡◌, refl, ◌&&◌, not, true, false, none, some, List, [], ◌∷◌,
}
use wasm_safe_thread.Parking.Machine.{Event, mine, other, park, go, run, init}
use wasm_safe_thread.Platform.Globals.{
  Globals, may_wait, atomics_wait_supported, is_node, is_main_thread, available_parallelism,
  get_available_parallelism,
}
use wasm_safe_thread.Platform.Blocking.{panics, lone_park}
use wasm_safe_thread.Platform.Sleeping.{
  Slept, sleep, millisecond, time_of, is_burnt, is_at_once, feature_test_predicts_blocking,
}

abbrev page : Globals
page = record {
  shared_array_buffer = true;
  atomics = true;
  wait_is_function = true;
  can_block = false;
  window = true;
  document = true;
  hardware_concurrency = some 8;
  process = none;
}

abbrev worker : Globals
worker = record page { can_block = true; window = false; document = false }

page_is_main : is_main_thread page ≡ some true
unfolding is_main_thread is_node
page_is_main = refl

worker_is_no_main : is_main_thread worker ≡ some false
unfolding is_main_thread is_node
worker_is_no_main = refl

page_parallelism : available_parallelism page ≡ some 8
unfolding available_parallelism get_available_parallelism
page_parallelism = refl

-- An unpark, and two parks.
abbrev parks : List Event
parks = other 0 ∷ other 0 ∷ mine park ∷ mine go ∷ mine go ∷ mine park ∷ mine go ∷ mine go ∷ []

-- With the clock at 5, a sleep of a millisecond and a half, and a wait that takes 7 more than it has.
feature_test_predicts_blocking_example :
    ((atomics_wait_supported worker && panics (run (init (may_wait worker)) parks).owner) ≡ false)
    × (panics (run (init (may_wait worker)) lone_park).owner ≡ not (atomics_wait_supported worker))
    × ((r : Slept) × (sleep worker (λ ns. ns + 7) 1500000 (5 ∷ 8 ∷ 2000000 ∷ []) ≡ some r)
        × (1500000 / millisecond * millisecond ≤ time_of r)
        × (is_burnt r ≡ (not (ltb 1500000 millisecond) && not (atomics_wait_supported worker)))
        × (is_at_once r ≡ ltb 1500000 millisecond))
feature_test_predicts_blocking_example =
    feature_test_predicts_blocking worker parks (λ ns. ns + 7) 1500000 5 2000000 (8 ∷ []) [] refl
      (λ ns. omega arith) (omega arith)
