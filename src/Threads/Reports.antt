-- ===== src/Threads/Reports.antt =====
-- How a worker's script ends and what its host learns of it: `makeBrowserWorkerScript`,
-- `makeNodeWorkerScript` and the handlers of a worker's events in src/wasm.rs.
use wasm_safe_thread.Base.{
  length, ℕ, suc, ◌≡◌, ◌≤◌, ap, ◌∙◌, ◌+◌, Bool, true, false, not, ◌&&◌, ◌||◌, List, [], ◌∷◌, ◌++◌,
  if◌then◌else◌, ◌==◌, arith,
}
use wasm_safe_thread.Exit.Machine.{
  Event, handle, exited, failed, host, HostPc, System, arrive, step, run, init, host_turn,
}
use wasm_safe_thread.Exit.Safety.{
  delivered-host_turn, exit_state_is_freed_once, handle_owns, host_owns, handle_frees, host_frees,
}

-- How the steps of a script go: the import of the shim; `initSync`, which a script of Node may not
-- find; the entry point, which it may not find; the call of the entry point; and
-- `wasm_safe_thread_pending_tasks`, which may not be there. `looks` has the number of pending tasks at
-- each look.
pub record Course : Type 0 where
  pub imports : Bool
  pub has_init : Bool
  pub init_returns : Bool
  pub has_entry : Bool
  pub entry_returns : Bool
  pub has_pending_tasks : Bool
  pub looks : List ℕ

-- Where it stands after these looks: still waiting; done, and closed; or with an error that was thrown.
pub data End : Type 0 where
  waiting closed thrown : End

abbrev pub wait_for_tasks : List ℕ → End
wait_for_tasks [] = waiting
wait_for_tasks (pending ∷ looks) = if pending == 0 then closed else wait_for_tasks looks

-- A call of what is not there throws.
unfoldable pub browser_script : Course → End
browser_script c =
    if not c.imports
    then thrown
    else if not (c.has_init && c.init_returns)
    then thrown
    else if not (c.has_entry && c.entry_returns)
    then thrown
    else if not c.has_pending_tasks
    then thrown
    else wait_for_tasks c.looks

unfoldable pub node_script : Course → End
node_script c =
    if not c.imports
    then thrown
    else if not c.has_init
    then thrown
    else if not c.init_returns
    then thrown
    else if not c.has_entry
    then thrown
    else if not c.entry_returns
    then thrown
    else if c.has_pending_tasks
    then wait_for_tasks c.looks
    else closed

-- What a browser's worker posts, and what the host of one in Node is told: the error event of an error
-- that was thrown, and the exit with its code.
pub data Told : Type 0 where
  exit_message error_message error_event : Told
  exit_event : (code : ℕ) → Told

unfoldable pub browser_tells : End → List Told
browser_tells waiting = []
browser_tells closed = exit_message ∷ []
browser_tells thrown = error_message ∷ []

-- Node documents that a worker exits with code 1 after an uncaught error, and 0 otherwise.
unfoldable pub node_tells : End → List Told
node_tells waiting = []
node_tells closed = exit_event 0 ∷ []
node_tells thrown = error_event ∷ exit_event 1 ∷ []

-- `w.onmessage` and `w.onerror`.
abbrev pub browser_handler : Told → List Event
browser_handler exit_message = exited ∷ []
browser_handler error_message = failed ∷ []
browser_handler error_event = failed ∷ []
browser_handler (exit_event code) = []

-- `w.on('exit', …)` and `w.on('error', …)`.
abbrev pub node_handler : Told → List Event
node_handler (exit_event code) = if code == 0 then exited ∷ [] else failed ∷ []
node_handler _ = []

abbrev pub handled_by : (Told → List Event) → List Told → List Event
handled_by handler [] = []
handled_by handler (x ∷ xs) = handler x ++ handled_by handler xs

-- The exits and errors that arrive at the host of a worker.
unfoldable pub reports : (browser : Bool) → Course → List Event
unfolding browser_script node_script browser_tells node_tells
reports true c = handled_by browser_handler (browser_tells (browser_script c))
reports false c = handled_by node_handler (node_tells (node_script c))

-- The exits and errors in a schedule of the host and the handle.
abbrev pub arrivals_in : List Event → List Event
arrivals_in [] = []
arrivals_in (exited ∷ es) = exited ∷ arrivals_in es
arrivals_in (failed ∷ es) = failed ∷ arrivals_in es
arrivals_in (handle c ∷ es) = arrivals_in es
arrivals_in (host ∷ es) = arrivals_in es

abbrev pub IsSingle : List Event → Type 0
IsSingle es = length es ≤ 1

told_once :
    (browser : Bool) (e : End)
    → IsSingle (
        if browser
        then handled_by browser_handler (browser_tells e)
        else handled_by node_handler (node_tells e))
unfolding browser_tells node_tells
told_once browser e = ground arith

pub one_report : (browser : Bool) (c : Course) → IsSingle (reports browser c)
unfolding reports
one_report true c = told_once true (browser_script c)
one_report false c = told_once false (node_script c)

-- The host counts no more than what arrives.
arrive_le : (code : ℕ) (p : HostPc) (s : System) → (arrive code p s).delivered ≤ suc s.delivered
arrive_le code p s = ground arith

pub delivered_le :
    (s : System) (es : List Event) → (run s es).delivered ≤ s.delivered + length (arrivals_in es)
unfolding run step
delivered_le s [] = omega arith
delivered_le s (handle c ∷ es) = delivered_le _ es
delivered_le s (exited ∷ es) =
    ground (arith, delivered_le (arrive 1 s.host_pc s) es, arrive_le 1 s.host_pc s)
delivered_le s (failed ∷ es) =
    ground (arith, delivered_le (arrive 2 s.host_pc s) es, arrive_le 2 s.host_pc s)
delivered_le s (host ∷ es) =
    ground (arith, delivered_le (host_turn s.host_pc s) es, delivered-host_turn s.host_pc s)

-- No worker misuses its exit state, whatever goes wrong in its script, if no task of it throws: a
-- host that has the cleanup handler is told of one exit or error, and in any interleaving of that, the host's turns and the
-- handle's, nobody uses the block after it was freed or frees it twice, and it is freed exactly when
-- both its owners have given it up and the later of the two has run its cleanup.
pub script_is_reported_once :
    (browser : Bool) (c : Course) (w : Bool) (es : List Event)
    → arrivals_in es ≡ reports browser c
    → let s = run (init w) es in
      (s.block.misused ≡ false)
      × (s.block.allocated ≡ (
          handle_owns s.handle_pc
          || host_owns s.delivered s.host_pc
          || handle_frees s.handle_pc
          || host_frees s.host_pc))
script_is_reported_once browser c w es e =
    exit_state_is_freed_once w es
      (ground (arith, delivered_le (init w) es, one_report browser c, ap length e))

same_end : (c : Course) → c.has_pending_tasks ≡ true → browser_script c ≡ node_script c
unfolding browser_script node_script
same_end c e = ground arith

told_alike :
    (e : End)
    → handled_by browser_handler (browser_tells e) ≡ handled_by node_handler (node_tells e)
unfolding browser_tells node_tells
told_alike e = ground arith

-- A worker of a browser and one of Node that finds `wasm_safe_thread_pending_tasks` tell their hosts
-- the same, whatever goes wrong in their scripts.
hosts_are_told_alike : (c : Course) → c.has_pending_tasks ≡ true → reports true c ≡ reports false c
unfolding reports
hosts_are_told_alike c e =
    told_alike (browser_script c) ∙ ap (λ x. handled_by node_handler (node_tells x)) (same_end c e)
