-- ===== src/Exit/Handlers.antt =====
-- `INIT_HANDLERS` and `init_handlers` of src/wasm.rs beside the `__cleanup_handler` of its JavaScript: in
-- which script the handler that frees exit states is set.
use wasm_safe_thread.Base.{
  ℕ, ◌≡◌, refl, ap, ◌∙◌, Bool, true, false, not, ◌||◌, List, [], ◌∷◌, if◌then◌else◌, ◌==◌, update,
  arith, inl, inr, Bool-cases, suc,
}
use wasm_safe_thread.Interleave.{one}
use wasm_safe_thread.Exit.Machine.{
  gone, idle, Event, handle, exited, failed, host, System, Choice, arrive, handle_turn, host_turn,
  step, init_with, run, run_inv,
}
use wasm_safe_thread.Exit.Safety.{
  handle_owns, handle_frees, handled, delivered-host_turn, is_idle, host_frees,
}

-- The `Once` is in the memory that all workers share; each worker has a script of its own, with its
-- own `__cleanup_handler`.
pub record Handlers : Type 0 where
  pub is_completed : Bool
  pub cleanup_handler : ℕ → Bool

abbrev pub unregistered : Handlers
unregistered = record { is_completed = false; cleanup_handler = λ u. false }

-- `register_cleanup_handler`, called from worker `u`.
abbrev pub register_cleanup_handler : ℕ → Handlers → Handlers
register_cleanup_handler u h = record h { cleanup_handler = update h.cleanup_handler u true }

-- The closure of `call_once` runs in the first call.
unfoldable pub init_handlers : ℕ → Handlers → Handlers
init_handlers u h =
    if h.is_completed then h else register_cleanup_handler u (record h { is_completed = true })

-- Every spawn begins with it: these workers spawn, one after the other.
unfoldable pub after_spawns : List ℕ → Handlers → Handlers
unfolding init_handlers
after_spawns [] h = h
after_spawns (u ∷ us) h = after_spawns us (init_handlers u h)

completed_stays : (us : List ℕ) (h : Handlers) → h.is_completed ≡ true → after_spawns us h ≡ h
unfolding after_spawns init_handlers
completed_stays [] h e = refl
completed_stays (u ∷ us) h e = ap (after_spawns us) (rw e refl) ∙ completed_stays us h e

-- The first worker that spawns one has the handler, and no other.
first_registers :
    (first : ℕ) (us : List ℕ) (u : ℕ)
    → (after_spawns (first ∷ us) unregistered).cleanup_handler u ≡ (u == first)
unfolding after_spawns init_handlers
first_registers first us u =
    ap (λ (h : Handlers). h.cleanup_handler u) (completed_stays us _ refl) ∙ ground arith

-- The exit state of a worker whose host is `u`.
abbrev pub hosted_by : ℕ → Bool → Handlers → System
hosted_by u w h = init_with (h.cleanup_handler u) w

-- Before an exit or error.
record Untold (r : Bool) (s : System) : Type 0 where
  registered : s.has_cleanup_handler ≡ r
  at_rest : s.host_pc ≡ idle
  counted : s.block.ref_count ≡ suc (one (handle_owns s.handle_pc))
  allocated : s.block.allocated ≡ true
  keeps : handle_frees s.handle_pc ≡ false

handle-Untold : (r : Bool) (s : System) (c : Choice) → Untold r s → Untold r (step s (handle c))
unfolding step handle_turn
handle-Untold r s c v = ground arith

host-Untold : (r : Bool) (s : System) → Untold r s → Untold r (step s host)
unfolding step host_turn
host-Untold r s v = ground arith

arrived-Untold :
    (r : Bool) (code : ℕ) (s : System)
    → (s.delivered ≡ 0 → Untold r s)
    → (arrive code s.host_pc s).delivered ≡ 0
    → Untold r (arrive code s.host_pc s)
arrived-Untold r code s v none = elim (Bool-cases (is_idle s.host_pc)) [
  | inl free ↦ absurd (ground arith)
  | inr busy ↦ let o = v (ground arith) in ground arith
]

step-Untold :
    (r : Bool) (s : System) (e : Event)
    → (s.delivered ≡ 0 → Untold r s)
    → (step s e).delivered ≡ 0
    → Untold r (step s e)
unfolding step
step-Untold r s (handle c) v none = handle-Untold r s c (v none)
step-Untold r s host v none = host-Untold r s (v (ground (arith, delivered-host_turn s.host_pc s)))
step-Untold r s exited v none = arrived-Untold r 1 s v none
step-Untold r s failed v none = arrived-Untold r 2 s v none

run-Untold :
    (r w : Bool) (es : List Event)
    → (run (init_with r w) es).delivered ≡ 0
    → Untold r (run (init_with r w) es)
run-Untold r w es =
    run_inv (λ s. s.delivered ≡ 0 → Untold r s) (step-Untold r) (init_with r w) es
      (λ none. ground arith)

-- After the drop of the handle nobody else frees the block.
record Leaks (s : System) : Type 0 where
  unregistered : s.has_cleanup_handler ≡ false
  dropped : s.handle_pc ≡ gone
  not_freeing : host_frees s.host_pc ≡ false
  leaked : s.block.allocated ≡ true

step-Leaks : (s : System) (e : Event) → Leaks s → Leaks (step s e)
unfolding step handle_turn host_turn
step-Leaks s (handle c) v = ground arith
step-Leaks s host v = ground arith
step-Leaks s exited v = ground arith
step-Leaks s failed v = ground arith

leaked_or_registered :
    (r : Bool) (s : System) (es : List Event)
    → Untold r s
    → s.handle_pc ≡ gone
    → ((run s es).block.allocated || r) ≡ true
leaked_or_registered true s es v k = ground arith
leaked_or_registered false s es v k =
    let l = run_inv Leaks step-Leaks s es (ground arith) in ground (arith, l.leaked)

freed_by_host :
    (r : Bool) (s : System)
    → Untold r s
    → s.handle_pc ≡ gone
    → (run s (handled exited)).block.allocated ≡ not r
unfolding run step host_turn
freed_by_host r s v k = ground arith

-- Only the first worker that spawns one ever frees an exit state as a host. Whatever workers spawn
-- after it, the exit state of a worker whose host is `u`, with a handle that was dropped before the
-- worker's exit, is freed when that exit has been handled if `u` is that first worker; and if `u` is
-- another one, as the host of a worker that a worker of Node spawns, the block stays allocated
-- whatever follows.
pub only_first_spawner_frees :
    (first : ℕ) (us : List ℕ) (u : ℕ) (w : Bool) (before es : List Event)
    → (run (hosted_by u w (after_spawns (first ∷ us) unregistered)) before).delivered ≡ 0
    → (run (hosted_by u w (after_spawns (first ∷ us) unregistered)) before).handle_pc ≡ gone
    → let s = run (hosted_by u w (after_spawns (first ∷ us) unregistered)) before in
      ((run s (handled exited)).block.allocated ≡ not (u == first))
      × (((run s es).block.allocated || (u == first)) ≡ true)
only_first_spawner_frees first us u w before es = rw (first_registers first us u) (λ none k.
    let v = run-Untold (u == first) w before none in
    (freed_by_host (u == first) _ v k, leaked_or_registered (u == first) _ es v k))
