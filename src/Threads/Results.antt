-- ===== src/Threads/Results.antt =====
-- A join gives what the thread's closure gave, on both backends, if no spawn hook panics.
use Prim.Native.String.{String}
use text.Mathlib.TextEquality.{eq_iff}
use wasm_safe_thread.Base.{
  ◌≡◌, refl, ◌∙◌, Bool, true, false, Option, none, some, List, [], ◌∷◌, map, arith, ◌⊎◌, inl, inr,
}
use wasm_safe_thread.Hooks.Registry.{Registry, hooks, register_spawn_hook}
use wasm_safe_thread.Hooks.Names.{lookup, lookup-register}
use wasm_safe_thread.Threads.Spawn.{
  Outcome, returns, panics, Joined, failed, join_panics, run_all, native_thread, native_join,
  Effect, set_finished, send, wasm_thread, received, sends, wasm_join, wasm_join_async, exit_error,
}

-- What a thread is to send: the message of a hook's panic, or the outcome of its closure.
abbrev pub shown : {T : Type 0} → (String → String) → Outcome T → Outcome T
shown display (returns v) = returns v
shown display (panics m) = panics (display m)

abbrev pub result : {T : Type 0} → (String → String) → Option String → Outcome T → Outcome T
result display (some m) f = panics (display m)
result display none f = shown display f

abbrev pub shown_join : {T : Type 0} → (String → String) → Joined T → Joined T
shown_join display (failed m) = failed (display m)
shown_join display j = j

abbrev pub failure : {T : Type 0} → Outcome T → String
failure (returns v) = exit_error
failure (panics m) = m

-- The thread is marked as finished before its first message.
abbrev pub finished_first : {T : Type 0} → List (Effect T) → Bool
finished_first [] = false
finished_first (set_finished ∷ es) = true
finished_first (send r ∷ es) = false
finished_first (e ∷ es) = finished_first es

module _ {T : Type 0} (display : String → String) (hs : List (Outcome (Unit {0})))
    (f : Outcome T) where
  -- On wasm, whether the closure returns, or it or a hook panics, the thread sends one message, and
  -- is marked as finished before it: the panic of the first hook that panics, or else the closure's
  -- value or panic.
  pub wasm_sends_once :
      (sends (wasm_thread display hs f) ≡ result display (run_all hs) f ∷ [])
      × (finished_first (wasm_thread display hs f) ≡ true)
  unfolding wasm_thread
  wasm_sends_once = ground arith

  -- If no hook panics, `join` gives the same on both backends, up to the text of a panic, and
  -- `join_async` does on wasm when the worker then exits without an error.
  backends_agree :
      run_all hs ≡ none
      → let j = shown_join display (native_join (native_thread hs f)) in
        (wasm_join false (received (wasm_thread display hs f)) ≡ j)
        × (wasm_join_async 1 (received (wasm_thread display hs f)) ≡ j)
  unfolding wasm_thread native_thread native_join wasm_join wasm_join_async
  backends_agree none_panics = ground arith

  -- On wasm, when the worker ends with an error, `join_async` fails whatever its thread sent: a
  -- value that was received is lost, and the error of a panic is given as it is.
  pub failed_worker_fails_join :
      let r = result display (run_all hs) f in
      wasm_join_async 2 (received (wasm_thread display hs f)) ≡ failed (failure r)
  unfolding wasm_thread wasm_join_async
  failed_worker_fails_join = ground arith

outcome_cases : (o : Outcome (Unit {0})) → ((m : String) × (o ≡ panics m)) ⊎ (o ≡ returns tt)
outcome_cases (panics m) = inl (m, refl)
outcome_cases (returns tt) = inr refl

-- A registered hook that panics, or one before it, stops the thread.
fails_at :
    {H : Type 0} (act : H → Outcome (Unit {0})) (n : String) (h : H) (m : String) (r : Registry H)
    → lookup n r ≡ some h
    → act h ≡ panics m
    → (m' : String) × (run_all (map act (hooks r)) ≡ some m')
fails_at act n h m [] e p = cc
fails_at act n h m ((x, g) ∷ r) e p = elim (outcome_cases (act g)) [
  | inl (m', q) ↦ (m', rw q refl)
  | inr q ↦ let k = fails_at act n h m r (ground arith) p in (k.0, rw q (k.1))
]

module _ {T H : Type 0} (act : H → Outcome (Unit {0})) where
  -- On the native backend a hook that panics breaks the join of every thread that is spawned while
  -- it is registered: whatever the thread's closure would do, it does not run, its sender is dropped
  -- without a message, and `join` and `join_async` panic in the joining thread.
  pub panicking_hook_breaks_native_join :
      (n : String) (h : H) (m : String) (r : Registry H) (f : Outcome T)
      → act h ≡ panics m
      → native_join (native_thread (map act (hooks (register_spawn_hook n h r))) f) ≡ join_panics
  unfolding native_join native_thread
  panicking_hook_breaks_native_join n h m r f p =
      let k =
        fails_at act n h m (register_spawn_hook n h r)
          (lookup-register n n h r ∙ ground (arith, eq_iff n n)) p in
      rw (k.1) refl
