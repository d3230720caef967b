-- ===== src/Hooks/Tests.antt =====
-- The theorems on the registry of spawn hooks, for a registry of two hooks; a hook is a number here.
use wasm_safe_thread.Base.{ℕ, ◌≡◌, refl, true, [], ◌∷◌}
use wasm_safe_thread.Hooks.Registry.{Registry, names, register_spawn_hook, remove_spawn_hook}
use wasm_safe_thread.Hooks.Names.{Distinct, register-register, remove-register}

abbrev two_hooks : Registry ℕ
two_hooks = ("log", 1) ∷ ("init", 2) ∷ []

two_hooks-Distinct : Distinct (names two_hooks)
two_hooks-Distinct = (refl, (refl, tt))

register-register_example :
    register_spawn_hook "log" 8 (register_spawn_hook "log" 7 two_hooks)
    ≡ register_spawn_hook "log" 8 two_hooks
register-register_example = register-register "log" 7 8 two_hooks

remove-register_example :
    remove_spawn_hook "trace" (register_spawn_hook "trace" 7 two_hooks) ≡ (true, two_hooks)
remove-register_example = remove-register "trace" 7 two_hooks refl
