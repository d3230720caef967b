-- ===== src/Exit/Join.antt =====
-- What `join_async` learns of the worker's exit, and that it learns of it.
use wasm_safe_thread.Base.{
  ℕ, ◌≡◌, ◌≢◌, ◌≤◌, subst, if◌then◌else◌, ◌++◌, ◌⊎◌, inl, inr, Bool, true, false, List, [], ◌∷◌,
  ◌==◌, arith, Bool-cases,
}
use wasm_safe_thread.Exit.Machine.{
  HandlePc, waiting, reload, poll, joined, gone, HostPc, idle, signal, notify, Choice, go, Event,
  handle, exited, failed, host, System, arrive, handle_turn, host_turn, step, init, run, run_inv,
}
use wasm_safe_thread.Exit.Safety.{is_idle, handled, delivered-host_turn}

abbrev HandleKnows : ℕ → HostPc → HandlePc → Type 0
HandleKnows code h reload = code ≢ 0
HandleKnows code h (joined c) = (c ≡ code) × (c ≢ 0)
HandleKnows code h waiting = (code ≡ 0) ⊎ (h ≡ notify)
HandleKnows code h _ = Unit {0}

abbrev HostKnows : ℕ → HostPc → Type 0
HostKnows code (signal c) = (code ≡ 0) × (c ≢ 0) × (c ≤ 2)
HostKnows code notify = code ≢ 0
HostKnows code _ = Unit {0}

-- While one exit or error at most has arrived.
record Codes (s : System) : Type 0 where
  handle_knows : HandleKnows s.block.exit_code s.host_pc s.handle_pc
  host_knows : HostKnows s.block.exit_code s.host_pc
  none_yet : s.delivered ≡ 0 → (s.block.exit_code ≡ 0) × (s.host_pc ≡ idle)
  range : s.block.exit_code ≤ 2

handle-Codes : (s : System) (c : Choice) → Codes s → Codes (step s (handle c))
unfolding step handle_turn
handle-Codes s c v = ground arith

host-Codes : (s : System) → Codes s → Codes (step s host)
unfolding step host_turn
host-Codes s v = ground arith

arrived-Codes :
    (code : ℕ) (s : System)
    → code ≢ 0
    → code ≤ 2
    → (arrive code s.host_pc s).delivered ≤ 1
    → (s.delivered ≤ 1 → Codes s)
    → Codes (arrive code s.host_pc s)
arrived-Codes code s nz small few v = elim (Bool-cases (is_idle s.host_pc)) [
  | inl free ↦ let o = v (ground arith) in ground arith
  | inr busy ↦ let o = v (ground arith) in ground arith
]

step-Codes :
    (s : System) (e : Event)
    → (s.delivered ≤ 1 → Codes s)
    → (step s e).delivered ≤ 1
    → Codes (step s e)
unfolding step
step-Codes s (handle c) v few = handle-Codes s c (v few)
step-Codes s host v few = host-Codes s (v (ground (arith, delivered-host_turn s.host_pc s)))
step-Codes s exited v few = arrived-Codes 1 s (omega arith) (omega arith) few v
step-Codes s failed v few = arrived-Codes 2 s (omega arith) (omega arith) few v

run-Codes : (w : Bool) (es : List Event) → (run (init w) es).delivered ≤ 1 → Codes (run (init w) es)
run-Codes w es =
    run_inv (λ s. s.delivered ≤ 1 → Codes s) step-Codes (init w) es (λ few. ground arith)

-- What `join_async` makes of the code, when the thread's result was a value.
unfoldable pub is_joined_ok : ℕ → Bool
is_joined_ok code = if code == 2 then false else true

cast_Knows :
    (code : ℕ) (h : HostPc) (p q : HandlePc) → p ≡ q → HandleKnows code h p → HandleKnows code h q
cast_Knows code h p q e k = subst (HandleKnows code h) e k

-- After any interleaving in which the worker's exit or error arrives once at most, when `join_async`
-- has its exit code, that exit or error has arrived, and the code is the one that the host stored:
-- 1 for an exit, for which `join_async` returns the result, or 2 for an error, for which it fails.
pub join_sees_exit :
    (w : Bool) (es : List Event) (code : ℕ)
    → (run (init w) es).delivered ≤ 1
    → (run (init w) es).handle_pc ≡ joined code
    → let s = run (init w) es in
      (s.delivered ≡ 1)
      × (code ≡ s.block.exit_code)
      × (((code ≡ 1) × (is_joined_ok code ≡ true)) ⊎ ((code ≡ 2) × (is_joined_ok code ≡ false)))
unfolding is_joined_ok
join_sees_exit w es code few e =
    let v = run-Codes w es few in
    let k = cast_Knows _ _ _ (joined code) e v.handle_knows in
    ground (arith, v.none_yet, v.range, k)

-- After any interleaving in which the worker's exit or error arrives once at most, while the host is
-- between events, a `join_async` that waits has nothing to
-- wait for but an exit or error that has not arrived: no exit is missed.
pub join_misses_no_exit :
    (w : Bool) (es : List Event)
    → (run (init w) es).delivered ≤ 1
    → (run (init w) es).handle_pc ≡ waiting
    → (run (init w) es).host_pc ≡ idle
    → (run (init w) es).block.exit_code ≡ 0
join_misses_no_exit w es few asleep free =
    let v = run-Codes w es few in
    elim (cast_Knows _ _ _ waiting asleep v.handle_knows) [
      | inl code ↦ code
      | inr busy ↦ ground arith
    ]

-- When an exit or error arrives while `join_async` waits, whether by `Atomics.waitAsync` or by
-- polling, it has the code one turn after the host is done; the host does not free the block, which
-- the handle still owns, and the handle frees it in the two turns of its drop.
exit_ends_join :
    (s : System) (error : Bool)
    → (s.handle_pc ≡ waiting) ⊎ (s.handle_pc ≡ poll)
    → s.host_pc ≡ idle
    → s.block.ref_count ≡ 2
    → s.block.allocated ≡ true
    → let s' = run s (handled (if error then failed else exited) ++ handle go ∷ []) in
      (s'.handle_pc ≡ joined (if error then 2 else 1))
      × (s'.block.allocated ≡ true)
      × ((run s' (handle go ∷ handle go ∷ handle go ∷ [])).block.allocated ≡ false)
      × ((run s' (handle go ∷ handle go ∷ handle go ∷ [])).handle_pc ≡ gone)
unfolding run step host_turn handle_turn
exit_ends_join s true (inl h) i n a = ground arith
exit_ends_join s true (inr h) i n a = ground arith
exit_ends_join s false (inl h) i n a = ground arith
exit_ends_join s false (inr h) i n a = ground arith
