-- ===== src/Platform/Blocking.antt =====
-- The feature test of `Atomics.wait` predicts what `park` does, and a program always learns its parallelism.
use wasm_safe_thread.Base.{
  not, ◌&&◌, ℕ, ◌≡◌, ◌≢◌, ◌≤◌, ◌<◌, ◌^◌, refl, Bool, true, false, List, [], ◌∷◌, Option, none, some,
  arith,
}
use wasm_safe_thread.Parking.Machine.{
  ParkPc, panicked, returned, clear, unsupported, System, Event, mine, other, go, park, step, run,
  init, run_inv, park_turn, unpark_turn,
}
use wasm_safe_thread.Platform.Globals.{
  Globals, Process, Os, may_wait, atomics_wait_supported, get_available_parallelism,
  available_parallelism, os_of, of_process, of_os, cpus_or_one,
}

-- A context with shared memory, which the program needs to have threads.
supported_may_wait :
    (g : Globals) → g.shared_array_buffer ≡ true → atomics_wait_supported g ≡ may_wait g
unfolding atomics_wait_supported
supported_may_wait g e = ground arith

-- `park` has not found that it may not wait.
abbrev pub is_well : ParkPc → Bool
is_well panicked = false
is_well (returned unsupported) = false
is_well (clear timed unsupported) = false
is_well _ = true

abbrev pub panics : ParkPc → Bool
panics panicked = true
panics _ = false

-- The program and its memory are in a context that has shared memory.
record Well (s : System) : Type 0 where
  waits : s.supported ≡ true
  well : is_well s.owner ≡ true

step-Well : (s : System) (e : Event) → Well s → Well (step s e)
unfolding step park_turn unpark_turn
step-Well s (mine c) v = record { waits = v.waits; well = ground (arith, v.waits, v.well) }
step-Well s (other u) v = ground (arith, v.waits, v.well)

well_panics : (p : ParkPc) → is_well p ≡ true → panics p ≡ false
well_panics p h = ground arith

run-panics : (es : List Event) → panics (run (init true) es).owner ≡ false
run-panics es =
    well_panics (run (init true) es).owner
      (run_inv Well step-Well (init true) es (record { waits = refl; well = refl })).well

-- A thread that parks once, and nobody else has a turn.
abbrev pub lone_park : List Event
lone_park = mine park ∷ mine go ∷ mine go ∷ mine go ∷ []

lone_park-panics : (w : Bool) → panics (run (init w) lone_park).owner ≡ not w
unfolding run step park_turn
lone_park-panics true = refl
lone_park-panics false = refl

never_both : (w : Bool) (es : List Event) → (w && panics (run (init w) es).owner) ≡ false
never_both false es = refl
never_both true es = run-panics es

-- In a context with shared memory, the feature test answers whether a park works: where it answers
-- true, no schedule of parks, timed parks and unparks ends in the panic of a park that may not
-- wait, and where it answers false, a park without a token panics.
pub feature_test_predicts_park :
    (g : Globals) (es : List Event)
    → g.shared_array_buffer ≡ true
    → ((atomics_wait_supported g && panics (run (init (may_wait g)) es).owner) ≡ false)
      × (panics (run (init (may_wait g)) lone_park).owner ≡ not (atomics_wait_supported g))
feature_test_predicts_park g es e =
    rw (supported_may_wait g e) (never_both (may_wait g) es, lone_park-panics (may_wait g))

abbrev pub Fits : Option ℕ → Type 0
Fits none = Unit {0}
Fits (some n) = n < 2 ^ 32

-- `os.availableParallelism()` is at least 1, and the counts are 32-bit numbers.
abbrev pub Counts : Option Os → Type 0
Counts none = Unit {0}
Counts (some o) = (o.parallelism ≢ some 0) × Fits o.parallelism × Fits o.cpus

-- The code counts with the `os` of a Node process.
abbrev pub node_os : Option Process → Option Os
node_os none = none
node_os (some p) = os_of p.builtin

cpus_bound : (n : Option ℕ) → Fits n → (1 ≤ cpus_or_one n) × (cpus_or_one n < 2 ^ 32)
cpus_bound none f = (omega arith, omega arith)
cpus_bound (some n) f = ground arith

of_os_bound : (o : Option Os) → Counts o → (1 ≤ of_os o) × (of_os o < 2 ^ 32)
of_os_bound none c = (omega arith, omega arith)
of_os_bound (some o) c = ground (arith, cpus_bound o.cpus c.2)

of_process_bound :
    (p : Option Process) → Counts (node_os p) → (1 ≤ of_process p) × (of_process p < 2 ^ 32)
of_process_bound none c = (omega arith, omega arith)
of_process_bound (some p) c = ground (arith, of_os_bound (os_of p.builtin) c)

-- With a `hardwareConcurrency` or a Node process or neither, a program always learns how many threads
-- to use: the error is never returned.
pub parallelism_is_known :
    (g : Globals)
    → Fits g.hardware_concurrency
    → Counts (node_os g.process)
    → (available_parallelism g ≡ some (get_available_parallelism g))
      × (1 ≤ get_available_parallelism g)
unfolding available_parallelism get_available_parallelism
parallelism_is_known g h c = ground (arith, of_process_bound g.process c)
