-- ===== src/Threads/Endings.antt =====
-- What `join_async` learns of the end of a worker's script, through the worker's host and the exit state.
use wasm_safe_thread.Base.{
  length, ◌≢◌, ℕ, ◌≡◌, ◌≤◌, ◌⊎◌, refl, ap, ◌∙◌, inl, inr, Bool, true, false, List, [], ◌∷◌, Option,
  none, some, if◌then◌else◌, arith,
}
use wasm_safe_thread.Exit.Machine.{
  Event, handle, exited, failed, host, HostPc, signal, idle, HandlePc, waiting as awaiting, joined,
  System, Choice, arrive, step, run, init, host_turn, handle_turn,
}
use wasm_safe_thread.Exit.Join.{is_joined_ok, join_sees_exit, join_misses_no_exit}
use wasm_safe_thread.Threads.Reports.{
  Course, End, waiting, closed, thrown, browser_script, node_script, reports, arrivals_in,
  delivered_le, browser_tells, node_tells,
}

abbrev pub code_of : Event → ℕ
code_of exited = 1
code_of failed = 2
code_of _ = 0

abbrev is_signal : HostPc → Bool
is_signal (signal code) = true
is_signal _ = false

abbrev stored : HostPc → ℕ → ℕ
stored (signal code) x = code
stored _ x = x

-- The code that the host has stored or is about to store; it stores in a block that has none.
record Holds (code : ℕ) (s : System) : Type 0 where
  holds : stored s.host_pc s.block.exit_code ≡ code
  first : is_signal s.host_pc ≡ true → s.block.exit_code ≡ 0

handle-Holds : (code : ℕ) (s : System) (c : Choice) → Holds code s → Holds code (step s (handle c))
unfolding step handle_turn
handle-Holds code s c v = ground arith

host-Holds : (code : ℕ) (s : System) → Holds code s → Holds code (step s host)
unfolding step host_turn
host-Holds code s v = ground arith

-- With no exit or error the code stays.
quiet-Holds :
    (code : ℕ) (s : System) (es : List Event)
    → arrivals_in es ≡ []
    → Holds code s
    → Holds code (run s es)
unfolding run
quiet-Holds code s [] e v = v
quiet-Holds code s (handle c ∷ es) e v =
    quiet-Holds code (step s (handle c)) es e (handle-Holds code s c v)
quiet-Holds code s (host ∷ es) e v = quiet-Holds code (step s host) es e (host-Holds code s v)
quiet-Holds code s (exited ∷ es) e v = cc
quiet-Holds code s (failed ∷ es) e v = cc

-- Nothing has arrived, and the host is between events.
record Waits (s : System) : Type 0 where
  at_rest : s.host_pc ≡ idle
  running : s.block.exit_code ≡ 0

handle-Waits : (s : System) (c : Choice) → Waits s → Waits (step s (handle c))
unfolding step handle_turn
handle-Waits s c v = ground arith

host-Waits : (s : System) → Waits s → Waits (step s host)
unfolding step host_turn
host-Waits s v = ground arith

arrive-Holds : (code : ℕ) (s : System) → Waits s → Holds code (arrive code s.host_pc s)
arrive-Holds code s v = ground arith

-- After one exit or error its code is there.
told-Holds :
    (s : System) (es : List Event) (e : Event)
    → arrivals_in es ≡ e ∷ []
    → Waits s
    → Holds (code_of e) (run s es)
unfolding run step
told-Holds s [] e h v = cc
told-Holds s (handle c ∷ es) e h v = told-Holds (step s (handle c)) es e h (handle-Waits s c v)
told-Holds s (host ∷ es) e h v = told-Holds (step s host) es e h (host-Waits s v)
told-Holds s (exited ∷ es) e h v =
    let same : exited ≡ e = cc in
    rw (← same) (quiet-Holds 1 (arrive 1 s.host_pc s) es (cc) (arrive-Holds 1 s v))
told-Holds s (failed ∷ es) e h v =
    let same : failed ≡ e = cc in
    rw (← same) (quiet-Holds 2 (arrive 2 s.host_pc s) es (cc) (arrive-Holds 2 s v))

unfoldable pub ended : (browser : Bool) → Course → End
ended browser c = if browser then browser_script c else node_script c

abbrev reported : End → List Event
reported waiting = []
reported closed = exited ∷ []
reported thrown = failed ∷ []

reports-ended : (browser : Bool) (c : Course) → reports browser c ≡ reported (ended browser c)
unfolding reports ended browser_tells node_tells
reports-ended true c = ground arith
reports-ended false c = ground arith

abbrev pub exit_code_of : End → ℕ
exit_code_of waiting = 0
exit_code_of closed = 1
exit_code_of thrown = 2

abbrev pub is_closed : End → Bool
is_closed closed = true
is_closed _ = false

-- What the handle learns when the worker has ended so.
abbrev Learns : End → ℕ → Type 0
Learns x code = (code ≡ exit_code_of x) × (is_joined_ok code ≡ is_closed x) × (x ≢ waiting)

init-Waits : (w : Bool) → Waits (init w)
init-Waits w = record { at_rest = refl; running = refl }

few_reported :
    (w : Bool) (es : List Event) (x : End)
    → arrivals_in es ≡ reported x
    → (run (init w) es).delivered ≤ length (reported x)
few_reported w es x a = ground (arith, delivered_le (init w) es, ap length a)

stored_now : (code k : ℕ) (s : System) → Holds k s → code ≡ s.block.exit_code → code ≢ 0 → code ≡ k
stored_now code k s v e nz = ground arith

learns :
    (w : Bool) (es : List Event) (code : ℕ) (x : End)
    → arrivals_in es ≡ reported x
    → (run (init w) es).handle_pc ≡ joined code
    → Learns x code
unfolding is_joined_ok
learns w es code waiting a j =
    let few = few_reported w es waiting a in
    let k = join_sees_exit w es code (omega arith) j in absurd (omega (arith, k.0))
learns w es code closed a j =
    let few = few_reported w es closed a in
    let k = join_sees_exit w es code (omega arith) j in
    let v = told-Holds (init w) es exited a (init-Waits w) in
    let e = stored_now code 1 (run (init w) es) v k.1 (ground (arith, k.2)) in ground arith
learns w es code thrown a j =
    let few = few_reported w es thrown a in
    let k = join_sees_exit w es code (omega arith) j in
    let v = told-Holds (init w) es failed a (init-Waits w) in
    let e = stored_now code 2 (run (init w) es) v k.1 (ground (arith, k.2)) in ground arith

join_sees_script_end :
    (browser : Bool) (c : Course) (w : Bool) (es : List Event) (code : ℕ)
    → arrivals_in es ≡ reports browser c
    → (run (init w) es).handle_pc ≡ joined code
    → Learns (ended browser c) code
join_sees_script_end browser c w es code a j =
    learns w es code (ended browser c) (a ∙ reports-ended browser c) j

-- `join_async` has an exit code; or it waits, and its host is between events.
abbrev pub is_settled : HandlePc → HostPc → Bool
is_settled (joined code) p = true
is_settled awaiting idle = true
is_settled _ _ = false

-- What `join_async` makes of the code, for a thread that sent a value: nothing yet, whether it
-- returns the value.
abbrev pub join_result : HandlePc → Option Bool
join_result (joined code) = some (is_joined_ok code)
join_result _ = none

abbrev pub result_of : End → Option Bool
result_of waiting = none
result_of closed = some true
result_of thrown = some false

joined_result :
    (x : End) (code : ℕ) (p : HandlePc)
    → Learns x code
    → p ≡ joined code
    → join_result p ≡ result_of x
joined_result waiting code p l e = absurd (l.2 refl)
joined_result closed code p l e = ground (arith, l.1)
joined_result thrown code p l e = ground (arith, l.1)

-- With nothing stored, nothing was told.
waiting_result :
    (w : Bool) (es : List Event) (x : End)
    → arrivals_in es ≡ reported x
    → (run (init w) es).handle_pc ≡ awaiting
    → (run (init w) es).host_pc ≡ idle
    → x ≡ waiting
waiting_result w es waiting a k h = refl
waiting_result w es closed a k h =
    let none_yet = join_misses_no_exit w es (few_reported w es closed a) k h in
    let v = told-Holds (init w) es exited a (init-Waits w) in absurd (ground (arith, v.holds))
waiting_result w es thrown a k h =
    let none_yet = join_misses_no_exit w es (few_reported w es thrown a) k h in
    let v = told-Holds (init w) es failed a (init-Waits w) in absurd (ground (arith, v.holds))

settled_cases :
    (p : HandlePc) (h : HostPc)
    → is_settled p h ≡ true
    → ((code : ℕ) × (p ≡ joined code)) ⊎ ((p ≡ awaiting) × (h ≡ idle))
settled_cases p h e = ground arith

-- A join agrees with the worker's script. In any interleaving of the worker's host and the handle in
-- which the host is told of that script and no task of it throws, once `join_async` has its exit
-- code, or waits while its host has nothing left to do, that is what the script did: it returns the
-- thread's value if the script went through its steps and found no pending task, it fails if a step
-- of the script threw an error, and it waits if the script still waits for its tasks.
pub join_agrees_with_script :
    (browser : Bool) (c : Course) (w : Bool) (es : List Event)
    → arrivals_in es ≡ reports browser c
    → is_settled (run (init w) es).handle_pc (run (init w) es).host_pc ≡ true
    → join_result (run (init w) es).handle_pc ≡ result_of (ended browser c)
join_agrees_with_script browser c w es a e =
    elim (settled_cases (run (init w) es).handle_pc (run (init w) es).host_pc e) [
      | inl (code, j) ↦
          joined_result (ended browser c) code _ (join_sees_script_end browser c w es code a j) j
      | inr (k, h) ↦
          rw (k, waiting_result w es (ended browser c) (a ∙ reports-ended browser c) k h) refl
    ]
