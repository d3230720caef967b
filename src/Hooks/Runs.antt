-- ===== src/Hooks/Runs.antt =====
-- Which hooks run when a thread starts.
use wasm_safe_thread.Base.{◌≡◌, ◌∙◌, sym, List, [], ◌∷◌, ◌++◌, push, push-append}
use mathlib.Core.List.{append_assoc, append-nil}
use wasm_safe_thread.Hooks.Registry.{Registry, hooks, run_hooks, run_spawn_hooks}

module _ {H : Type 0} (change : H → Registry H → Registry H) where
  -- A hook that does `change` to the registry, and leaves a note that it ran.
  abbrev noted : H → Registry H × List H → Registry H × List H
  noted h w = (change h w.0, push w.1 h)

  run_hooks-noted : (hs : List H) (w : Registry H × List H) → (run_hooks noted hs w).1 ≡ w.1 ++ hs
  unfolding run_hooks
  run_hooks-noted [] w = sym (append-nil w.1)
  run_hooks-noted (h ∷ hs) w =
      run_hooks-noted hs (noted h w) ∙ rw (push-append w.1 h) (append_assoc w.1 (h ∷ []) hs)

  -- Whatever the hooks do to the registry while they run, the hooks that were registered when the
  -- thread started run, each once, in the order of registration, and no other does.
  runs_snapshot :
      (r : Registry H) (before : List H) → (run_spawn_hooks noted (r, before)).1 ≡ before ++ hooks r
  unfolding run_spawn_hooks
  runs_snapshot r before = run_hooks-noted (hooks r) (r, before)
