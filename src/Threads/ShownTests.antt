-- ===== src/Threads/ShownTests.antt =====
-- The console of a thread that prints two lines and a panic, and flushes after the first.
use Prim.Native.String.{String}
use wasm_safe_thread.Hooks.Registry.{Registry, register_spawn_hook}
use wasm_safe_thread.Threads.Spawn.{Outcome, panics}
use wasm_safe_thread.Threads.ConsoleHook.{
  Hook, prints, install_console_hook, thread_output, install_console_hook_lem,
}
use wasm_safe_thread.Base.{ℕ, refl, List, [], ◌∷◌, ◌++◌, none, position}
use wasm_safe_thread.Threads.Console.{panicked_at, Output, log}
use wasm_safe_thread.Threads.Shown.{Action, printed, flushed, text_of, Shows}

abbrev hello : List ℕ
hello = b'h' ∷ b'i' ∷ b'\n' ∷ []

abbrev panic : List ℕ
panic = b'm' ∷ (panicked_at ++ (b'a' ∷ b'\n' ∷ []))

abbrev prints_all : List Action
prints_all = printed hello ∷ flushed ∷ printed hello ∷ printed panic ∷ []

abbrev gave_up : Outcome ℕ
gave_up = panics "gave up"

abbrev fresh : Output
fresh = record { capture = none; console = log (b'o' ∷ []) ∷ []; elsewhere = [] }

-- A hook that prints before the console hook, and one after it.
abbrev two_hooks : Registry Hook
two_hooks = ("log", prints (printed hello ∷ [])) ∷ []

abbrev display : String → String
display m = m

install_console_hook_example :
    Shows fresh.console
      (text_of prints_all)
      (thread_output display (install_console_hook two_hooks) prints_all gave_up fresh)
unfolding install_console_hook register_spawn_hook position
install_console_hook_example =
    install_console_hook_lem display two_hooks prints_all gave_up fresh refl
      (refl, (refl, (refl, tt)))
