-- ===== src/Hooks/Registry.antt =====
-- `SPAWN_HOOKS` and its operations. Each operation holds the mutex throughout, so it is one step on
-- the list; `H` is the type of hooks.
use Prim.Native.String.{String}
use text.Mathlib.Text.{◌==◌ as str_eq}
use wasm_safe_thread.Base.{
  ℕ, Bool, true, false, List, [], ◌∷◌, Option, none, some, map, set, remove_at, push, position,
}

-- `Vec<(String, SpawnHookFn)>`.
abbrev pub Registry : Type 0 → Type 0
Registry H = List (String × H)

module _ {H : Type 0} where
  abbrev pub names : Registry H → List String
  names = map (λ e. e.0)

  abbrev pub hooks : Registry H → List H
  hooks = map (λ e. e.1)

  -- `hooks.iter().position(|(n, _)| n == name)`.
  abbrev pub find : String → Registry H → Option ℕ
  find name r = position (λ e. str_eq e.0 name) r

  -- `register_spawn_hook`: replaces in place, or appends.
  unfoldable pub register_spawn_hook : String → H → Registry H → Registry H
  register_spawn_hook name hook r = elim (find name r) [
    | some pos ↦ set r pos (name, hook)
    | none ↦ push r (name, hook)
  ]

  -- `remove_spawn_hook`, with the new registry.
  unfoldable pub remove_spawn_hook : String → Registry H → Bool × Registry H
  remove_spawn_hook name r = elim (find name r) [
    | some pos ↦ (true, remove_at r pos)
    | none ↦ (false, r)
  ]

  -- `clear_spawn_hooks`.
  unfoldable pub clear_spawn_hooks : Registry H → Registry H
  clear_spawn_hooks r = []

module _ {H W : Type 0} (effect : H → Registry H × W → Registry H × W) where
  -- The loop of `run_spawn_hooks`. A hook may do anything to the world, the registry included.
  unfoldable pub run_hooks : List H → Registry H × W → Registry H × W
  run_hooks [] w = w
  run_hooks (h ∷ hs) w = run_hooks hs (effect h w)

  -- `run_spawn_hooks`: the hooks are copied out first, and the mutex is not held while they run.
  unfoldable pub run_spawn_hooks : Registry H × W → Registry H × W
  unfolding run_hooks
  run_spawn_hooks w = run_hooks (hooks w.0) w
