-- ===== src/Platform/Globals.antt =====
-- The globals of a JavaScript context, and what src/wasm_support.rs and src/wasm/wasm_utils.rs read
-- from them.
use wasm_safe_thread.Base.{
  ℕ, ◌%◌, ◌^◌, Bool, true, false, ◌&&◌, ◌||◌, Option, none, some, if◌then◌else◌, ◌==◌, ltb,
}
use wasm_safe_thread.Parking.Machine.{Wake, not_equal, timed_out}

-- `process.getBuiltinModule("node:os")`: `availableParallelism()`, and the length of `cpus()`, where
-- they are functions.
pub record Os : Type 0 where
  pub parallelism : Option ℕ
  pub cpus : Option ℕ

-- `process.getBuiltinModule`: `isMainThread` of "node:worker_threads", where it is a Boolean.
pub record Builtin : Type 0 where
  pub worker_threads : Option Bool
  pub os : Option Os

-- `process`: whether it has `versions.node`, and whether `release.name` is "node".
pub record Process : Type 0 where
  pub node_version : Bool
  pub node_release : Bool
  pub builtin : Option Builtin

-- Which globals are defined, and whether the agent may block (`[[CanBlock]]`).
pub record Globals : Type 0 where
  pub shared_array_buffer : Bool
  pub atomics : Bool
  pub wait_is_function : Bool
  pub can_block : Bool
  pub window : Bool
  pub document : Bool
  pub hardware_concurrency : Option ℕ
  pub process : Option Process

-- Where a call of `Atomics.wait` on shared memory does not throw.
abbrev pub may_wait : Globals → Bool
may_wait g = g.atomics && g.wait_is_function && g.can_block

-- `Atomics.wait(ia, 0, expected, 0)` on a word: `none` is what it throws.
abbrev pub wait_no_time : Globals → (word expected : ℕ) → Option Wake
wait_no_time g word expected =
    if may_wait g then some (if word == expected then timed_out else not_equal) else none

-- `result === 'timed-out' || result === 'not-equal'`, and the `catch`.
abbrev pub answered : Option Wake → Bool
answered none = false
answered (some timed_out) = true
answered (some not_equal) = true
answered (some _) = false

-- `_wsm_supportsAtomicsWait`, which `atomics_wait_supported` calls.
unfoldable pub atomics_wait_supported : Globals → Bool
atomics_wait_supported g =
    if not_defined g.shared_array_buffer
    then false
    else if not_defined g.atomics || not_defined g.wait_is_function
    then false
    else answered (wait_no_time g 0 0)
  where
    not_defined : Bool → Bool
    not_defined b = if b then false else true

abbrev pub is_node_in : Option Process → Bool
is_node_in none = false
is_node_in (some p) = p.node_version && p.node_release

unfoldable pub is_node : Globals → Bool
is_node g = is_node_in g.process

abbrev pub builtin_of : Option Process → Option Builtin
builtin_of none = none
builtin_of (some p) = p.builtin

abbrev pub main_of : Option Builtin → Option Bool
main_of none = none
main_of (some b) = b.worker_threads

-- `none` is the error "Can't detect".
unfoldable pub is_main_thread : Globals → Option Bool
unfolding is_node
is_main_thread g =
    if is_node g
    then main_of (builtin_of g.process)
    else if g.window && g.document
    then some true
    else some false

-- `if (cpus && cpus.length > 0)`.
abbrev pub cpus_or_one : Option ℕ → ℕ
cpus_or_one none = 1
cpus_or_one (some n) = if ltb 0 n then n else 1

abbrev pub of_os : Option Os → ℕ
of_os none = 1
of_os (some o) = count o.parallelism
  where
    count : Option ℕ → ℕ
    count none = cpus_or_one o.cpus
    count (some n) = n

abbrev pub os_of : Option Builtin → Option Os
os_of none = none
os_of (some b) = b.os

abbrev pub of_process : Option Process → ℕ
of_process none = 1
of_process (some p) = if p.node_version then of_os (os_of p.builtin) else 1

-- `navigator.hardwareConcurrency` counts where it is there and not 0.
abbrev pub of_hardware : Option ℕ → ℕ → ℕ
of_hardware none rest = rest
of_hardware (some n) rest = if n == 0 then rest else n

unfoldable pub get_available_parallelism : Globals → ℕ
get_available_parallelism g = of_hardware g.hardware_concurrency (of_process g.process)

-- `NonZeroUsize::new` of a `u32`; `none` is the error `NotFound`.
unfoldable pub available_parallelism : Globals → Option ℕ
unfolding get_available_parallelism
available_parallelism g =
    let count = get_available_parallelism g % 2 ^ 32 in if count == 0 then none else some count
