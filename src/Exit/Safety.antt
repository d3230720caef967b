-- ===== src/Exit/Safety.antt =====
-- The block is freed by its last owner, once, and nobody uses it after that.
use wasm_safe_thread.Base.{
  ℕ, zero, ◌+◌, ◌≡◌, ◌≤◌, inl, inr, Bool, true, false, ◌||◌, List, [], ◌∷◌, ◌++◌, if◌then◌else◌,
  arith, Bool-cases,
}
use wasm_safe_thread.Interleave.{one}
use wasm_safe_thread.Exit.Machine.{
  HandlePc, holding, freeing, gone, HostPc, idle, cleanup, Choice, go, drop, Event, handle, exited,
  failed, host, System, arrive, handle_turn, host_turn, step, init, run, run_inv,
}

-- The handle counts among the owners, and so does the host.
abbrev pub handle_owns : HandlePc → Bool
handle_owns freeing = false
handle_owns gone = false
handle_owns _ = true

abbrev pub host_owns : ℕ → HostPc → Bool
host_owns zero idle = true
host_owns _ idle = false
host_owns _ cleanup = false
host_owns _ _ = true

abbrev pub handle_frees : HandlePc → Bool
handle_frees freeing = true
handle_frees _ = false

abbrev pub host_frees : HostPc → Bool
host_frees cleanup = true
host_frees _ = false

abbrev pub is_idle : HostPc → Bool
is_idle idle = true
is_idle _ = false

abbrev host_begun : HostPc → ℕ
host_begun idle = 0
host_begun _ = 1

-- While one exit or error at most has arrived.
pub record IsOwned (s : System) : Type 0 where
  pub registered : s.has_cleanup_handler ≡ true
  pub unused : s.block.misused ≡ false
  pub counted :
      s.block.ref_count ≡ one (handle_owns s.handle_pc) + one (host_owns s.delivered s.host_pc)
  pub alive :
      one s.block.allocated
      ≡ one (
          handle_owns s.handle_pc
          || host_owns s.delivered s.host_pc
          || handle_frees s.handle_pc
          || host_frees s.host_pc)
  pub one_frees : handle_frees s.handle_pc ≡ true → host_frees s.host_pc ≡ false
  pub freer_last : (handle_frees s.handle_pc || host_frees s.host_pc) ≡ true → s.block.ref_count ≡ 0
  pub begun : host_begun s.host_pc ≤ s.delivered

handle-IsOwned : (s : System) (c : Choice) → IsOwned s → IsOwned (step s (handle c))
unfolding step handle_turn
handle-IsOwned s c v = ground arith

host-IsOwned : (s : System) → IsOwned s → IsOwned (step s host)
unfolding step host_turn
host-IsOwned s v = ground arith

pub delivered-host_turn : (p : HostPc) (s : System) → (host_turn p s).delivered ≡ s.delivered
unfolding host_turn
delivered-host_turn p s = ground arith

arrived-IsOwned :
    (code : ℕ) (s : System)
    → (arrive code s.host_pc s).delivered ≤ 1
    → (s.delivered ≤ 1 → IsOwned s)
    → IsOwned (arrive code s.host_pc s)
arrived-IsOwned code s few v = elim (Bool-cases (is_idle s.host_pc)) [
  | inl free ↦ let o = v (ground arith) in ground arith
  | inr busy ↦ let o = v (ground arith) in ground arith
]

step-IsOwned :
    (s : System) (e : Event)
    → (s.delivered ≤ 1 → IsOwned s)
    → (step s e).delivered ≤ 1
    → IsOwned (step s e)
unfolding step
step-IsOwned s (handle c) v few = handle-IsOwned s c (v few)
step-IsOwned s host v few = host-IsOwned s (v (ground (arith, delivered-host_turn s.host_pc s)))
step-IsOwned s exited v few = arrived-IsOwned 1 s few v
step-IsOwned s failed v few = arrived-IsOwned 2 s few v

pub run-IsOwned :
    (w : Bool) (es : List Event) → (run (init w) es).delivered ≤ 1 → IsOwned (run (init w) es)
run-IsOwned w es =
    run_inv (λ s. s.delivered ≤ 1 → IsOwned s) step-IsOwned (init w) es (λ few. ground arith)

-- After any interleaving in which the worker's exit or error arrives once at most at a host that has
-- the cleanup handler, nobody has used
-- the block after it was freed, or freed it twice; and the block is freed exactly when both its
-- owners, the handle and the worker's host, have given it up and the later of the two has run its
-- cleanup.
pub exit_state_is_freed_once :
    (w : Bool) (es : List Event)
    → (run (init w) es).delivered ≤ 1
    → let s = run (init w) es in
      (s.block.misused ≡ false)
      × (s.block.allocated ≡ (
          handle_owns s.handle_pc
          || host_owns s.delivered s.host_pc
          || handle_frees s.handle_pc
          || host_frees s.host_pc))
exit_state_is_freed_once w es few =
    let v = run-IsOwned w es few in (v.unused, ground (arith, v.alive))

-- The turns of the host for one exit or error.
abbrev pub handled : Event → List Event
handled e = e ∷ host ∷ host ∷ host ∷ host ∷ []

-- When two exits or errors of one worker arrive, as an uncaught error in a task of a browser worker
-- and the worker's exit after it, a host that has the cleanup handler gives up the handle's share as well: the block is freed
-- while the handle holds it, and its drop uses freed memory.
pub second_event_is_misuse :
    (s : System) (late : Bool)
    → s.handle_pc ≡ holding
    → s.host_pc ≡ idle
    → s.block.ref_count ≡ 2
    → s.has_cleanup_handler ≡ true
    → let s' = run s (handled failed ++ handled (if late then exited else failed)) in
      (s'.block.allocated ≡ false)
      × (s'.handle_pc ≡ holding)
      × ((run s' (handle drop ∷ handle go ∷ [])).block.misused ≡ true)
unfolding run step host_turn handle_turn
second_event_is_misuse s true h i n r = ground arith
second_event_is_misuse s false h i n r = ground arith
