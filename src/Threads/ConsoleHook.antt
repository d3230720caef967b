-- ===== src/Threads/ConsoleHook.antt =====
-- `install_println_eprintln_console_hook` of src/lib.rs: the hook that redirects a thread's output, among
-- the hooks that a thread runs, and what its console shows when a join can learn its result.
use Prim.Native.String.{String}
use text.Mathlib.TextEquality.{eq_iff}
use wasm_safe_thread.Base.{
  ℕ, ◌≡◌, refl, ap, ◌∙◌, sym, subst, Bool, true, false, List, [], ◌∷◌, ◌++◌, none, some, arith,
}
use wasm_safe_thread.Hooks.Registry.{
  Registry, hooks, register_spawn_hook, run_hooks, run_spawn_hooks,
}
use wasm_safe_thread.Hooks.Names.{lookup, lookup-register}
use wasm_safe_thread.Threads.Spawn.{Outcome, returns, Effect, send, wasm_thread, run_all}
use wasm_safe_thread.Threads.Spawn
use wasm_safe_thread.Threads.Console.{Output, redirect, print, flush}
use wasm_safe_thread.Threads.Shown.{
  Action, printed, flushed, act, text_of, WholeLines, Shows, every_line_is_shown_once, print_lem,
  flush_lem,
}

-- A hook redirects the thread's output, or prints.
pub data Hook : Type 0 where
  console_redirect : Hook
  prints : List Action → Hook

abbrev pub hook_name : String
hook_name = "wasm_safe_thread::println_eprintln_console_redirect"

unfoldable pub install_console_hook : Registry Hook → Registry Hook
install_console_hook r = register_spawn_hook hook_name console_redirect r

unfoldable pub perform : Hook → Output → Output
unfolding redirect
perform console_redirect o = redirect o
perform (prints acts) o = act o acts

abbrev effect : Hook → Registry Hook × Output → Registry Hook × Output
effect h w = (w.0, perform h w.1)

-- What has become of the output when the thread sends its first message.
abbrev pub at_send : {T : Type 0} → List (Effect T) → Output → Output
at_send [] o = o
at_send (send r ∷ es) o = o
at_send (Spawn.flush ∷ es) o = at_send es (flush o)
at_send (e ∷ es) o = at_send es o

-- A spawned thread: its hooks, the output of its closure, and the flush after it.
unfoldable pub thread_output :
    {T : Type 0} → (String → String) → Registry Hook → List Action → Outcome T → Output → Output
unfolding perform run_spawn_hooks
thread_output display r acts f o =
    at_send (wasm_thread display [] f) (act (run_spawn_hooks effect (r, o)).1 acts)

-- What the hooks do with a redirected output, and what those after the first that redirects do.
abbrev pub hook_acts : List Hook → List Action
hook_acts [] = []
hook_acts (console_redirect ∷ hs) = hook_acts hs
hook_acts (prints acts ∷ hs) = acts ++ hook_acts hs

abbrev pub shown_acts : List Hook → List Action
shown_acts [] = []
shown_acts (console_redirect ∷ hs) = hook_acts hs
shown_acts (prints acts ∷ hs) = shown_acts hs

abbrev redirects : List Hook → Bool
redirects [] = false
redirects (console_redirect ∷ hs) = true
redirects (prints acts ∷ hs) = redirects hs

act-append : (o : Output) (xs ys : List Action) → act o (xs ++ ys) ≡ act (act o xs) ys
unfolding act
act-append o [] ys = refl
act-append o (printed text ∷ xs) ys = act-append (print text o) xs ys
act-append o (flushed ∷ xs) ys = act-append (flush o) xs ys

act_captured :
    (o : Output) (xs : List Action) (bytes : List ℕ)
    → o.capture ≡ some bytes
    → (k : List ℕ) × ((act o xs).capture ≡ some k)
unfolding act
act_captured o [] bytes e = (bytes, e)
act_captured o (printed text ∷ xs) bytes e =
    act_captured (print text o) xs (bytes ++ text) (print_lem o text bytes e).0
act_captured o (flushed ∷ xs) bytes e = act_captured (flush o) xs [] (flush_lem o bytes e).1

abbrev Unseen : Output → Output → Type 0
Unseen o o' = (o'.capture ≡ none) × (o'.console ≡ o.console)

Unseen-print : (o : Output) (text : List ℕ) → o.capture ≡ none → Unseen o (print text o)
unfolding print
Unseen-print o text e = ground arith

Unseen-flush : (o : Output) → o.capture ≡ none → Unseen o (flush o)
unfolding flush
Unseen-flush o e = ground arith

Unseen-act : (o : Output) (xs : List Action) → o.capture ≡ none → Unseen o (act o xs)
unfolding act
Unseen-act o [] e = (e, refl)
Unseen-act o (printed text ∷ xs) e =
    let p = Unseen-print o text e in let k = Unseen-act (print text o) xs p.0 in (k.0, k.1 ∙ p.1)
Unseen-act o (flushed ∷ xs) e =
    let p = Unseen-flush o e in let k = Unseen-act (flush o) xs p.0 in (k.0, k.1 ∙ p.1)

redirect_captured : (o : Output) (bytes : List ℕ) → o.capture ≡ some bytes → redirect o ≡ o
unfolding redirect
redirect_captured o bytes e = rw e refl

run_captured :
    (r : Registry Hook) (hs : List Hook) (o : Output) (bytes : List ℕ)
    → o.capture ≡ some bytes
    → (run_hooks effect hs (r, o)).1 ≡ act o (hook_acts hs)
unfolding run_hooks perform act
run_captured r [] o bytes e = refl
run_captured r (console_redirect ∷ hs) o bytes e =
    ap (λ x. (run_hooks effect hs (r, x)).1) (redirect_captured o bytes e)
    ∙ run_captured r hs o bytes e
run_captured r (prints acts ∷ hs) o bytes e =
    let k = act_captured o acts bytes e in
    run_captured r hs (act o acts) k.0 k.1 ∙ sym (act-append o acts (hook_acts hs))

redirect_lem :
    (o : Output)
    → o.capture ≡ none
    → ((redirect o).capture ≡ some []) × ((redirect o).console ≡ o.console)
unfolding redirect
redirect_lem o e = ground arith

run_uncaptured :
    (r : Registry Hook) (hs : List Hook) (o : Output)
    → o.capture ≡ none
    → redirects hs ≡ true
    → (o' : Output) × (o'.capture ≡ some [])
      × (o'.console ≡ o.console)
      × ((run_hooks effect hs (r, o)).1 ≡ act o' (shown_acts hs))
unfolding run_hooks perform
run_uncaptured r [] o e h = cc
run_uncaptured r (console_redirect ∷ hs) o e h =
    let p = redirect_lem o e in (redirect o, p.0, p.1, run_captured r hs (redirect o) [] p.0)
run_uncaptured r (prints acts ∷ hs) o e h =
    let p = Unseen-act o acts e in
    let (o', c, k, q) = run_uncaptured r hs (act o acts) p.0 h in (o', c, k ∙ p.1, q)

lookup-redirects :
    (n : String) (r : Registry Hook)
    → lookup n r ≡ some console_redirect
    → redirects (hooks r) ≡ true
lookup-redirects n [] e = cc
lookup-redirects n ((x, console_redirect) ∷ r) e = refl
lookup-redirects n ((x, prints acts) ∷ r) e = lookup-redirects n r (ground arith)

install_redirects : (r : Registry Hook) → redirects (hooks (install_console_hook r)) ≡ true
unfolding install_console_hook
install_redirects r =
    lookup-redirects hook_name (register_spawn_hook hook_name console_redirect r) (
      lookup-register hook_name hook_name console_redirect r
      ∙ ground (arith, eq_iff hook_name hook_name))

-- The thread flushes once before its first message, whether its closure returns or panics.
at_send_lem :
    {T : Type 0} (display : String → String) (f : Outcome T) (o : Output)
    → at_send (wasm_thread display [] f) o ≡ flush o
unfolding wasm_thread
at_send_lem display f o = ground arith

-- Once the console hook is installed among any hooks, a thread that is spawned with an output that
-- nobody redirected shows on the console, before its message is sent, each line that the hooks after
-- the console hook and its closure print, in order and once, if these are whole lines: also when the
-- closure panics.
pub install_console_hook_lem :
    {T : Type 0} (display : String → String) (r : Registry Hook) (acts : List Action)
    (f : Outcome T) (o : Output)
    → o.capture ≡ none
    → WholeLines (shown_acts (hooks (install_console_hook r)) ++ acts)
    → Shows o.console
        (text_of (shown_acts (hooks (install_console_hook r)) ++ acts))
        (thread_output display (install_console_hook r) acts f o)
unfolding thread_output run_spawn_hooks
install_console_hook_lem display r acts f o e w =
    let hs = hooks (install_console_hook r) in
    let (o', c, k, q) = run_uncaptured (install_console_hook r) hs o e (install_redirects r) in
    let same =
      at_send_lem display f (act (run_hooks effect hs (install_console_hook r, o)).1 acts)
      ∙ ap (λ x. flush (act x acts)) q
      ∙ ap flush (sym (act-append o' (shown_acts hs) acts)) in
    subst (λ x. Shows o.console (text_of (shown_acts hs ++ acts)) x) (sym same)
      (subst
        (λ before.
          Shows before (text_of (shown_acts hs ++ acts)) (flush (act o' (shown_acts hs ++ acts))))
        k (every_line_is_shown_once o' [] (shown_acts hs ++ acts) c refl w))
