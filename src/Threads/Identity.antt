-- ===== src/Threads/Identity.antt =====
-- `Thread`, `ThreadId`, `THREAD_COUNTER` and `CURRENT_THREAD` of src/wasm.rs and
-- src/wasm/thread_api.rs: which `Thread` each worker has.
use Prim.Native.String.{String}
use wasm_safe_thread.Base.{
  ℕ, suc, ◌+◌, ◌%◌, ◌≡◌, ◌<◌, refl, Bool, true, false, Option, none, some, List, [], ◌∷◌,
  if◌then◌else◌, ◌==◌, update, arith,
}

pub record Thread : Type 0 where
  pub name : Option String
  pub id : ℕ

-- `PartialEq for Thread`.
abbrev pub eq : Thread → Thread → Bool
eq a b = a.id == b.id

-- `THREAD_COUNTER` is an `AtomicU64`.
abbrev pub u64 : ℕ
u64 = 18446744073709551616

-- The `CURRENT_THREAD` of a worker: not set; to be set by the closure that was spawned for it, when
-- it starts; and set.
pub data Slot : Type 0 where
  empty : Slot
  spawned running : Thread → Slot

-- `made` counts the threads made, without wrapping.
pub record System : Type 0 where
  pub counter : ℕ
  pub slot : ℕ → Slot
  pub made : ℕ

-- A worker is spawned, starts, or calls `current`; it has no number that another worker has.
pub data Event : Type 0 where
  spawn : (worker : ℕ) → Option String → Event
  start : (worker : ℕ) → Event
  current : (worker : ℕ) → (is_main : Bool) → Event

-- `THREAD_COUNTER.fetch_add(1)`, and the thread with that id.
abbrev pub set_slot : ℕ → Slot → System → System
set_slot u x s = record s {
  counter = (s.counter + 1) % u64;
  slot = update s.slot u x;
  made = suc s.made;
}

-- `Builder::spawn`: `name` is that of the builder.
abbrev pub spawn_in : Slot → ℕ → Option String → System → System
spawn_in empty u name s = set_slot u (spawned (record { name = name; id = s.counter })) s
spawn_in _ u name s = s

-- The closure of `Builder::spawn` sets `CURRENT_THREAD` first.
abbrev pub start_in : Slot → ℕ → System → System
start_in (spawned t) u s = record s { slot = update s.slot u (running t) }
start_in _ u s = s

abbrev pub default_name : Bool → Option String
default_name is_main = if is_main then some "main" else none

-- `current`, of a worker that runs: a thread that was not spawned here is made at its first call.
abbrev pub current_in : Slot → ℕ → Bool → System → System
current_in empty u is_main s =
    set_slot u (running (record { name = default_name is_main; id = s.counter })) s
current_in _ u is_main s = s

unfoldable pub step : System → Event → System
step s (spawn u name) = spawn_in (s.slot u) u name s
step s (start u) = start_in (s.slot u) u s
step s (current u is_main) = current_in (s.slot u) u is_main s

abbrev pub init : System
init = record { counter = 0; slot = λ _. empty; made = 0 }

unfoldable pub run : System → List Event → System
run s [] = s
run s (e ∷ es) = run (step s e) es

-- The thread has the number `i`.
abbrev pub has_id : ℕ → Slot → Bool
has_id i empty = false
has_id i (spawned t) = t.id == i
has_id i (running t) = t.id == i

-- While the counter has not wrapped.
pub record Inv (s : System) : Type 0 where
  pub counted : s.counter ≡ s.made
  pub below : (u i : ℕ) → has_id i (s.slot u) ≡ true → i < s.made
  pub unique : (u v i : ℕ) → has_id i (s.slot u) ≡ true → has_id i (s.slot v) ≡ true → u ≡ v

made-Inv :
    (s : System) (u : ℕ) (x : Slot)
    → ((i : ℕ) → has_id i x ≡ true → i ≡ s.counter)
    → suc s.made < u64
    → Inv s
    → Inv (set_slot u x s)
made-Inv s u x own few v = record {
  counted = ground (arith, v.counted);
  below = λ w i h. ground (arith, v.below w i, v.counted, own i);
  unique =
      λ w w' i h k. ground (arith, v.unique w w' i, v.below w i, v.below w' i, v.counted, own i);
}

started-Inv :
    (s : System) (u : ℕ) (x y : Slot)
    → s.slot u ≡ x
    → ((i : ℕ) → has_id i y ≡ has_id i x)
    → Inv s
    → Inv (record s { slot = update s.slot u y })
started-Inv s u x y e same v = record {
  counted = v.counted;
  below = λ w i h. ground (arith, v.below w i, same i);
  unique = λ w w' i h k. ground (arith, v.unique w w' i, same i);
}

own_id :
    (name : Option String) (c i : ℕ)
    → has_id i (running (record { name = name; id = c })) ≡ true
    → i ≡ c
own_id name c i h = ground arith

module _ (s : System) (u : ℕ) (v : s.made < u64 → Inv s) where
  spawn-Inv :
      (x : Slot) (name : Option String)
      → (spawn_in x u name s).made < u64
      → Inv (spawn_in x u name s)
  spawn-Inv empty name few = made-Inv s u _ (own_id name s.counter) few (v (ground arith))
  spawn-Inv x name few = v few

  current-Inv : (x : Slot) (b : Bool) → (current_in x u b s).made < u64 → Inv (current_in x u b s)
  current-Inv empty b few =
      made-Inv s u _ (own_id (default_name b) s.counter) few (v (ground arith))
  current-Inv x b few = v few

  start-Inv : (x : Slot) → s.slot u ≡ x → (start_in x u s).made < u64 → Inv (start_in x u s)
  start-Inv (spawned t) e few = started-Inv s u (spawned t) (running t) e (λ i. refl) (v few)
  start-Inv x e few = v few

step-Inv :
    (s : System) (e : Event) → (s.made < u64 → Inv s) → (step s e).made < u64 → Inv (step s e)
unfolding step
step-Inv s (spawn u name) v = spawn-Inv s u v (s.slot u) name
step-Inv s (start u) v = start-Inv s u v (s.slot u) refl
step-Inv s (current u b) v = current-Inv s u v (s.slot u) b

pub run-Inv :
    (s : System) (es : List Event) → (s.made < u64 → Inv s) → (run s es).made < u64 → Inv (run s es)
unfolding run
run-Inv s [] v = v
run-Inv s (e ∷ es) v = run-Inv (step s e) es (step-Inv s e v)

pub init-Inv : Inv init
init-Inv = record { counted = refl; below = λ u i h. cc; unique = λ u v i h k. cc }

step_keeps :
    (s : System) (e : Event) (u : ℕ) (a : Thread)
    → s.slot u ≡ running a
    → (step s e).slot u ≡ running a
unfolding step
step_keeps s (spawn w name) u a h = ground arith
step_keeps s (start w) u a h = ground arith
step_keeps s (current w b) u a h = ground arith

-- Once `current` has answered in a worker, or its closure has started, it answers the same thread
-- for ever, whatever is spawned, started and asked in any worker.
current_is_stable :
    (s : System) (es : List Event) (u : ℕ) (a : Thread)
    → s.slot u ≡ running a
    → (run s es).slot u ≡ running a
unfolding run
current_is_stable s [] u a h = h
current_is_stable s (e ∷ es) u a h = current_is_stable (step s e) es u a (step_keeps s e u a h)
