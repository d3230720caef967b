-- ===== src/Threads/Relay.antt =====
-- Where a worker of the browser is made: `wasm_safe_thread_spawn_worker`, `wstForwardSpawnToParent` and
-- `wstSpawnBrowserWorkerDirect` of src/wasm.rs. A worker that the crate made passes a spawn on to the
-- host that made it.
use Prim.Native.String.{String}
use wasm_safe_thread.Base.{
  ℕ, ◌≡◌, Bool, true, false, not, ◌&&◌, ◌||◌, List, [], ◌∷◌, if◌then◌else◌, arith,
}

-- `work`, `module` and `memory` are values that the code passes on, and here numbers.
pub record Payload : Type 0 where
  pub work : ℕ
  pub module_of : ℕ
  pub memory : ℕ
  pub name : String
  pub shim_url : String
  pub exit_state_ptr : ℕ
  pub worker_id : String
  pub entry_name : String

-- A host: whether it is a worker, whether it may relay to its parent, whether `postMessage` succeeds
-- there, and the entry point with which its parent made it.
pub record Host : Type 0 where
  pub is_worker_global : Bool
  pub can_relay_to_parent : Bool
  pub posts : Bool
  pub entry_name : String

-- What becomes of a spawn: a worker that is made and sent its work; and the two accesses to the exit
-- state of a spawn that failed.
pub data Effect : Type 0 where
  create : Payload → Effect
  signal_exit : (exit_state_ptr code : ℕ) → Effect
  decrement_ref_count : (exit_state_ptr : ℕ) → Effect

abbrev pub relays : Host → Bool
relays h = h.is_worker_global && h.can_relay_to_parent

-- The payload that the parent makes of the one it gets, with its own `entryName`.
abbrev pub relay_payload : String → Payload → Payload
relay_payload entry p = record p { entry_name = entry }

-- The `catch` of `wstForwardSpawnToParent`.
abbrev pub forward_failed : Payload → List Effect
forward_failed p = signal_exit p.exit_state_ptr 2 ∷ decrement_ref_count p.exit_state_ptr ∷ []

-- The parent's `onmessage`, and the parents after it; a host without a parent posts to nobody.
-- `entry` is the entry point of the host that sent the message.
unfoldable pub on_relay_spawn : String → Payload → List Host → List Effect
on_relay_spawn entry p [] = []
on_relay_spawn entry p (h ∷ hs) =
    let next = on_relay_spawn h.entry_name p hs in
    if relays h
    then (if h.posts then next else forward_failed p)
    else create (relay_payload entry p) ∷ []

-- The spawn in the host at the head, in a browser.
unfoldable pub spawn_in_browser : Payload → List Host → List Effect
unfolding on_relay_spawn
spawn_in_browser p [] = []
spawn_in_browser p (h ∷ hs) =
    if relays h
    then (if h.posts then on_relay_spawn h.entry_name p hs else forward_failed p)
    else create p ∷ []

-- The entry point is the same in every host that the crate makes.
abbrev pub MadeWith : String → List Host → Type 0
MadeWith entry [] = Unit {0}
MadeWith entry (h ∷ hs) = (h.entry_name ≡ entry) × MadeWith entry hs

-- Some host at the end of the relays makes the worker itself.
abbrev pub is_rooted : List Host → Bool
is_rooted [] = false
is_rooted (h ∷ hs) = not (relays h) || is_rooted hs

-- Some host before it cannot post.
abbrev pub is_cut : List Host → Bool
is_cut [] = false
is_cut (h ∷ hs) = relays h && (not h.posts || is_cut hs)

relay_lem :
    (p : Payload) (hs : List Host)
    → MadeWith p.entry_name hs
    → is_rooted hs ≡ true
    → on_relay_spawn p.entry_name p hs ≡ (if is_cut hs then forward_failed p else create p ∷ [])
unfolding on_relay_spawn
relay_lem p [] made rooted = cc
relay_lem p (h ∷ hs) (e, made) rooted = rw e ground (arith, relay_lem p hs made)

-- When the hosts above a spawn were all made with its entry point and one of them makes workers
-- itself, a spawn in a browser has one outcome: one worker is made, with the work, the name, the shim
-- and the exit state that were asked for, through however many parents the spawn was relayed; or,
-- when a host on the way cannot post, no worker is made, and the exit state is told once of an error
-- and loses one owner.
pub spawn_is_relayed :
    (p : Payload) (hs : List Host)
    → MadeWith p.entry_name hs
    → is_rooted hs ≡ true
    → spawn_in_browser p hs ≡ (if is_cut hs then forward_failed p else create p ∷ [])
unfolding spawn_in_browser on_relay_spawn
spawn_is_relayed p [] made rooted = cc
spawn_is_relayed p (h ∷ hs) (e, made) rooted = rw e ground (arith, relay_lem p hs made)
