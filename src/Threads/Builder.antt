-- ===== src/Threads/Builder.antt =====
-- `Builder` of src/wasm/thread_api.rs with its `spawn`, and `spawn` and `spawn_named` of src/lib.rs: the
-- thread of the join handle is the one that `current` answers in the worker.
use Prim.Native.String.{String}
use wasm_safe_thread.Base.{
  ℕ, ◌≡◌, ◌<◌, refl, ◌∙◌, inl, inr, Bool, true, false, ◌||◌, Option, none, some, List, [], ◌∷◌, ap,
  ◌==◌, Bool-cases, arith,
}
use wasm_safe_thread.Threads.Identity.{
  Thread, eq, u64, Slot, empty, spawned, running, System, Event, start, current, spawn_in, step,
  init, run, run-Inv, init-Inv, has_id, Inv,
}
use wasm_safe_thread.Threads.Identity

pub record Builder : Type 0 where
  pub name : Option String
  pub stack_size : Option ℕ
  pub shim_name : Option String

-- `Builder::new`, and its three setters.
abbrev pub new : Builder
new = record { name = none; stack_size = none; shim_name = none }

abbrev pub with_name : String → Builder → Builder
with_name name b = record b { name = some name }

abbrev pub with_stack_size : ℕ → Builder → Builder
with_stack_size size b = record b { stack_size = some size }

abbrev pub with_shim_name : String → Builder → Builder
with_shim_name name b = record b { shim_name = some name }

-- `Builder::spawn`, of the worker `u`: the thread with the name and the next number is the handle's.
unfoldable pub spawn_with : Builder → ℕ → System → System × Thread
spawn_with b u s = (spawn_in (s.slot u) u b.name s, record { name = b.name; id = s.counter })

unfoldable pub spawn : ℕ → System → System × Thread
unfolding spawn_with
spawn u s = spawn_with new u s

unfoldable pub spawn_named : String → ℕ → System → System × Thread
unfolding spawn_with
spawn_named name u s = spawn_with (with_name name new) u s

-- A thread is spawned by a builder, by `spawn` or by `spawn_named`.
pub data Call : Type 0 where
  by_builder : Builder → Call
  by_spawn : Call
  by_name : String → Call

abbrev pub spawn_by : Call → ℕ → System → System × Thread
spawn_by (by_builder b) = spawn_with b
spawn_by by_spawn = spawn
spawn_by (by_name name) = spawn_named name

abbrev pub name_of : Call → Option String
name_of (by_builder b) = b.name
name_of by_spawn = none
name_of (by_name name) = some name

-- The closure of `u` has started.
abbrev pub is_started : ℕ → List Event → Bool
is_started u [] = false
is_started u (start w ∷ es) = w == u || is_started u es
is_started u (e ∷ es) = is_started u es

abbrev slot_of : Bool → Thread → Slot
slot_of true h = running h
slot_of false h = spawned h

step_slot :
    (b : Bool) (u : ℕ) (h : Thread) (s : System) (e : Event)
    → s.slot u ≡ slot_of b h
    → (step s e).slot u ≡ slot_of (b || is_started u (e ∷ [])) h
unfolding step
step_slot b u h s (Identity.spawn w name) k = ground arith
step_slot b u h s (start w) k = ground arith
step_slot b u h s (current w is_main) k = ground arith

started_or :
    (b : Bool) (u : ℕ) (e : Event) (es : List Event)
    → ((b || is_started u (e ∷ [])) || is_started u es) ≡ (b || is_started u (e ∷ es))
started_or b u (Identity.spawn w name) es = ground arith
started_or b u (start w) es = ground arith
started_or b u (current w is_main) es = ground arith

run_slot :
    (b : Bool) (u : ℕ) (h : Thread) (s : System) (es : List Event)
    → s.slot u ≡ slot_of b h
    → (run s es).slot u ≡ slot_of (b || is_started u es) h
unfolding run
run_slot b u h s [] k = ground arith
run_slot b u h s (e ∷ es) k =
    run_slot (b || is_started u (e ∷ [])) u h (step s e) es (step_slot b u h s e k)
    ∙ ap (λ x. slot_of x h) (started_or b u e es)

spawned_by :
    (call : Call) (u : ℕ) (s : System)
    → spawn_by call u s
      ≡ (step s (Identity.spawn u (name_of call)), record { name = name_of call; id = s.counter })
unfolding spawn_with spawn spawn_named step
spawned_by (by_builder b) u s = refl
spawned_by by_spawn u s = refl
spawned_by (by_name name) u s = refl

spawned_slot :
    (name : Option String) (u : ℕ) (s : System)
    → s.slot u ≡ empty
    → (step s (Identity.spawn u name)).slot u ≡ spawned (record { name = name; id = s.counter })
unfolding step
spawned_slot name u s k = ground arith

equal_threads :
    (s : System) (u v : ℕ) (h c : Thread)
    → Inv s
    → s.slot u ≡ running h
    → s.slot v ≡ running c
    → eq c h ≡ (v == u)
equal_threads s u v h c inv at_u at_v = elim (Bool-cases (c.id == h.id)) [
  | inl same ↦ let e = inv.unique v u c.id (ground arith) (ground arith) in ground arith
  | inr other ↦ ground arith
]

-- With an event that spawns the worker.
current_of :
    (name : Option String) (u : ℕ) (before es : List Event)
    → (run init before).slot u ≡ empty
    → is_started u es ≡ true
    → (run (step (run init before) (Identity.spawn u name)) es).made < u64
    → let s = run (step (run init before) (Identity.spawn u name)) es in
      (s.slot u ≡ running (record { name = name; id = (run init before).counter })) × Inv s
unfolding run
current_of name u before es k on few =
    let s = run init before in
    let e = Identity.spawn u name in
    (
      run_slot false u _ (step s e) es (spawned_slot name u s k)
          ∙ ap (λ x. slot_of x (record { name = name; id = s.counter })) on,
      run-Inv s (e ∷ es) (run-Inv init before (λ _. init-Inv)) few,
    )

-- The thread of a join handle is the one that `current` answers in the worker, and in no other.
-- Whatever was spawned, started and asked before and is after, once the closure of a worker that was
-- spawned, by a builder, by `spawn` or by `spawn_named`, has started, `current` of that worker has the
-- thread of its handle, with the name that was given; and while fewer than 2^64 threads have been
-- made, the threads of any two workers are equal, as `PartialEq` compares them, exactly if it is the
-- same worker.
pub handle_is_current :
    (call : Call) (u : ℕ) (before es : List Event) (v w : ℕ) (c d : Thread)
    → (run init before).slot u ≡ empty
    → is_started u es ≡ true
    → (run (spawn_by call u (run init before)).0 es).made < u64
    → (run (spawn_by call u (run init before)).0 es).slot v ≡ running c
    → (run (spawn_by call u (run init before)).0 es).slot w ≡ running d
    → let r = spawn_by call u (run init before) in
      ((run r.0 es).slot u ≡ running r.1) × (r.1.name ≡ name_of call) × (eq c d ≡ (v == w))
handle_is_current call u before es v w c d k on =
    rw (spawned_by call u (run init before)) (λ few at_v at_w.
      let (at_u, inv) = current_of (name_of call) u before es k on few in
      (at_u, refl, equal_threads _ w v d c inv at_w at_v))
