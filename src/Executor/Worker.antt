-- ===== src/Executor/Worker.antt =====
-- `spawn` of src/test_executor.rs on wasm: a worker whose closure queues a future and returns, beside the
-- loop of the worker's script in src/wasm.rs that ends it.
use wasm_safe_thread.Base.{
  ℕ, suc, ◌≡◌, ◌≤◌, ◌⊎◌, refl, ◌∙◌, ap, inl, inr, Bool, true, false, ◌&&◌, not, List, [], ◌∷◌,
  Option, none, some, if◌then◌else◌, ◌==◌, arith,
}
use wasm_safe_thread.Threads.Tasks.{task_begin, task_finished}

-- What a future awaits, one after the other: something that a microtask settles, or that an event
-- of the worker does, such as a timer.
pub data Await : Type 0 where
  microtask event : Await

-- The future's turn comes: its next event arrives; or the script looks at the pending tasks again.
pub data Event : Type 0 where
  arrives look : Event

-- `closed` is after `close()`; a browser's worker has no events then, and one of Node goes on.
pub record Worker (T : Type 0) : Type 0 where
  pub browser : Bool
  pub counted : Bool
  pub closed : Bool
  pub pending : Option ℕ
  pub awaits : List Await
  pub sent : Option T

-- Whether the future goes on after this await without an event.
abbrev pub after_microtasks : List Await → List Await
after_microtasks [] = []
after_microtasks (microtask ∷ rest) = after_microtasks rest
after_microtasks (event ∷ rest) = event ∷ rest

module _ {T : Type 0} (v : T) where
  abbrev finished : Option ℕ → Option ℕ
  finished none = none
  finished (some n) = task_finished false n

  -- `let result = future.await; let _ = tx.send_sync(result);`, and `task_finished` if the task is
  -- counted.
  abbrev settle : List Await → Worker T → Worker T
  settle [] w = record w {
    awaits = [];
    sent = some v;
    pending = if w.counted then finished w.pending else w.pending;
  }
  settle (a ∷ rest) w = record w { awaits = a ∷ rest }

  -- The microtasks that are queued run at the end of each job.
  unfoldable pub run_microtasks : Worker T → Worker T
  unfolding task_finished
  run_microtasks w = settle (after_microtasks w.awaits) w

  abbrev is_none_left : Option ℕ → Bool
  is_none_left none = false
  is_none_left (some n) = n == 0

  -- `if (pending === 0) break;`, and the exit and `close()` after it.
  unfoldable pub look_at_tasks : Worker T → Worker T
  look_at_tasks w = if is_none_left w.pending then record w { closed = true } else w

  -- The event that the future awaits.
  abbrev pub next_event : List Await → Worker T → Worker T
  next_event (event ∷ rest) w = settle (after_microtasks rest) w
  next_event _ w = w

  unfoldable pub step : Worker T → Event → Worker T
  unfolding look_at_tasks task_finished
  step w arrives = if w.browser && w.closed then w else next_event w.awaits w
  step w look = if w.closed then w else look_at_tasks w

  -- The job in which the entry point calls a closure that queues a future and returns: the script
  -- looks at the tasks, and the microtasks run. `counted` is for a closure that calls `task_begin`
  -- before, and `task_finished` in the future after it has sent; that of the code calls neither.
  unfoldable pub start_as : (browser counted : Bool) → List Await → Worker T
  unfolding run_microtasks look_at_tasks task_begin
  start_as browser counted awaits = run_microtasks (
      look_at_tasks (record {
        browser = browser;
        counted = counted;
        closed = false;
        pending = if counted then task_begin false 0 else some 0;
        awaits = awaits;
        sent = none;
      }))

  unfoldable pub start : (browser : Bool) → List Await → Worker T
  unfolding start_as
  start browser awaits = start_as browser false awaits

  unfoldable pub run : Worker T → List Event → Worker T
  run w [] = w
  run w (e ∷ es) = run (step w e) es

  -- What `rx.recv_sync()` can receive, after these events of the worker.
  unfoldable pub spawn : (browser : Bool) → List Await → List Event → Option T
  unfolding start run
  spawn browser awaits es = (run (start browser awaits) es).sent

  abbrev pub awaits_event : List Await → Bool
  awaits_event [] = false
  awaits_event (microtask ∷ rest) = awaits_event rest
  awaits_event (event ∷ rest) = true

  closed_step : (w : Worker T) (e : Event) → w.browser ≡ true → w.closed ≡ true → step w e ≡ w
  unfolding step
  closed_step w arrives b c = ground arith
  closed_step w look b c = ground arith

  closed_for_ever :
      (w : Worker T) (es : List Event) → w.browser ≡ true → w.closed ≡ true → run w es ≡ w
  unfolding run
  closed_for_ever w [] b c = refl
  closed_for_ever w (e ∷ es) b c =
      ap (λ x. run x es) (closed_step w e b c) ∙ closed_for_ever w es b c

  sent-settle :
      (awaits : List Await) (w : Worker T)
      → w.sent ≡ none
      → (settle (after_microtasks awaits) w).sent ≡ (if awaits_event awaits then none else some v)
  sent-settle [] w e = refl
  sent-settle (microtask ∷ rest) w e = sent-settle rest w e
  sent-settle (event ∷ rest) w e = e

  settled :
      (awaits : List Await) (w : Worker T)
      → ((settle awaits w).browser ≡ w.browser) × ((settle awaits w).closed ≡ w.closed)
  settled [] w = (refl, refl)
  settled (a ∷ rest) w = (refl, refl)

  -- Whatever events follow, a browser's worker has closed after its first job.
  spawn_needs_no_event :
      (awaits : List Await) (es : List Event)
      → spawn true awaits es ≡ (if awaits_event awaits then none else some v)
  unfolding spawn start start_as run_microtasks look_at_tasks
  spawn_needs_no_event awaits es =
      ap (λ (w : Worker T). w.sent)
        (closed_for_ever (start_as true false awaits) es (settled (after_microtasks awaits) _).0
          (settled (after_microtasks awaits) _).1)
      ∙ sent-settle awaits _ refl

  abbrev waits : List Await → Bool
  waits (event ∷ rest) = true
  waits _ = false

  -- What keeps a worker alive for its future: it is one of Node, or the task is counted and it has
  -- not closed. Until the result is sent the future awaits an event.
  record Lives (w : Worker T) : Type 0 where
    alive : (w.browser ≡ false) ⊎ (w.sent ≡ none → (w.pending ≡ some 1) × (w.closed ≡ false))
    left : w.sent ≡ none → waits w.awaits ≡ true
    result : (w.sent ≡ none) ⊎ (w.sent ≡ some v)

  settle-Lives :
      (awaits : List Await) (w : Worker T)
      → w.sent ≡ none
      → (w.browser ≡ false) ⊎ ((w.pending ≡ some 1) × (w.closed ≡ false))
      → Lives (settle (after_microtasks awaits) w)
  settle-Lives [] w e k = record { alive = inr (λ n. cc); left = λ n. cc; result = inr refl }
  settle-Lives (microtask ∷ rest) w e k = settle-Lives rest w e k
  settle-Lives (event ∷ rest) w e k = record {
    alive = elim k [ inl b ↦ inl b | inr p ↦ inr (λ n. p) ];
    left = λ n. refl;
    result = inl e;
  }

  kept_alive :
      (w : Worker T)
      → Lives w
      → w.sent ≡ none
      → (w.browser ≡ false) ⊎ ((w.pending ≡ some 1) × (w.closed ≡ false))
  kept_alive w c e = elim c.alive [ inl b ↦ inl b | inr k ↦ inr (k e) ]

  step_sent : (w : Worker T) (e : Event) → w.sent ≡ some v → (step w e).sent ≡ some v
  unfolding step
  step_sent w arrives s = ground (arith, next_sent w.awaits)
    where
      next_sent : (awaits : List Await) → (next_event awaits w).sent ≡ some v
      next_sent [] = s
      next_sent (microtask ∷ rest) = s
      next_sent (event ∷ rest) = elim (after_microtasks rest) as (λ l. (settle l w).sent ≡ some v) [
        | [] ↦ refl
        | a ∷ l ↦ s
      ]
  step_sent w look s = ground arith

  run_sent : (w : Worker T) (es : List Event) → w.sent ≡ some v → (run w es).sent ≡ some v
  unfolding run
  run_sent w [] s = s
  run_sent w (e ∷ es) s = run_sent (step w e) es (step_sent w e s)

  abbrev pub events_of : List Await → ℕ
  events_of [] = 0
  events_of (microtask ∷ rest) = events_of rest
  events_of (event ∷ rest) = suc (events_of rest)

  abbrev pub arrivals : List Event → ℕ
  arrivals [] = 0
  arrivals (arrives ∷ es) = suc (arrivals es)
  arrivals (look ∷ es) = arrivals es

  settled_events :
      (awaits : List Await) (w : Worker T)
      → events_of (settle (after_microtasks awaits) w).awaits ≡ events_of awaits
  settled_events [] w = refl
  settled_events (microtask ∷ rest) w = settled_events rest w
  settled_events (event ∷ rest) w = refl

  closing-Lives : (w : Worker T) → w.browser ≡ false → Lives w → Lives (record w { closed = true })
  closing-Lives w b c = record { alive = inl b; left = c.left; result = c.result }

  abbrev LivesWith : List Await → Worker T → Type 0
  LivesWith awaits w = Lives w × (w.awaits ≡ awaits)

  either-LivesWith :
      (awaits : List Await) (b : Bool) (x y : Worker T)
      → LivesWith awaits x
      → LivesWith awaits y
      → LivesWith awaits (if b then x else y)
  either-LivesWith awaits true x y p q = p
  either-LivesWith awaits false x y p q = q

  look_node : (w : Worker T) → w.browser ≡ false → Lives w → LivesWith w.awaits (step w look)
  unfolding step look_at_tasks
  look_node w b c =
      either-LivesWith w.awaits w.closed w _ (c, refl)
        (either-LivesWith w.awaits (is_none_left w.pending) _ w (closing-Lives w b c, refl)
          (c, refl))

  look_counted : (w : Worker T) → w.pending ≡ some 1 → w.closed ≡ false → step w look ≡ w
  unfolding step look_at_tasks
  look_counted w p k = ground arith

  look-Lives : (w : Worker T) → Lives w → w.sent ≡ none → LivesWith w.awaits (step w look)
  look-Lives w c e = elim (kept_alive w c e) [
    | inl b ↦ look_node w b c
    | inr p ↦ rw (look_counted w p.0 p.1) (c, refl)
  ]

  arrives_lem :
      (w : Worker T) (awaits : List Await)
      → w.awaits ≡ awaits
      → Lives w
      → w.sent ≡ none
      → (rest : List Await) × (awaits ≡ event ∷ rest)
        × (step w arrives ≡ settle (after_microtasks rest) w)
  unfolding step
  arrives_lem w [] a c e = cc (c.left e, ap waits a)
  arrives_lem w (microtask ∷ rest) a c e = cc (c.left e, ap waits a)
  arrives_lem w (event ∷ rest) a c e = (rest, refl, ground (arith, kept_alive w c e))

  run-Lives :
      (w : Worker T) (es : List Event)
      → Lives w
      → events_of w.awaits ≤ arrivals es
      → (run w es).sent ≡ some v
  unfolding run
  run-Lives w [] c few = elim c.result [
    | inr s ↦ s
    | inl e ↦
        let (rest, q, r) = arrives_lem w w.awaits refl c e in
        absurd (ground (arith, ap events_of q))
  ]
  run-Lives w (look ∷ es) c few = elim c.result [
    | inr s ↦ run_sent (step w look) es (step_sent w look s)
    | inl e ↦
        let (c', same) = look-Lives w c e in
        run-Lives (step w look) es c' (ground (arith, ap events_of same))
  ]
  run-Lives w (arrives ∷ es) c few = elim c.result [
    | inr s ↦ run_sent (step w arrives) es (step_sent w arrives s)
    | inl e ↦
        let (rest, q, r) = arrives_lem w w.awaits refl c e in
        let next : Worker T = settle (after_microtasks rest) w in
        let c' = settle-Lives rest w e (kept_alive w c e) in
        ap (λ (x : Worker T). (run x es).sent) r
        ∙ run-Lives next es c' (ground (arith, settled_events rest w, ap events_of q))
  ]

  -- A worker of Node, and one that counts its task.
  start_as-Lives :
      (browser counted : Bool) (awaits : List Await)
      → (browser && not counted) ≡ false
      → Lives (start_as browser counted awaits)
  unfolding start_as run_microtasks look_at_tasks task_begin
  start_as-Lives false true awaits e = settle-Lives awaits _ refl (inl refl)
  start_as-Lives false false awaits e = settle-Lives awaits _ refl (inl refl)
  start_as-Lives true true awaits e = settle-Lives awaits _ refl (inr (refl, refl))
  start_as-Lives true false awaits e = cc

  start_events :
      (browser counted : Bool) (awaits : List Await)
      → events_of (start_as browser counted awaits).awaits ≡ events_of awaits
  unfolding start_as run_microtasks look_at_tasks task_begin
  start_events browser true awaits = settled_events awaits _
  start_events browser false awaits = settled_events awaits _

  result_is_sent :
      (browser counted : Bool) (awaits : List Await) (es : List Event)
      → (browser && not counted) ≡ false
      → events_of awaits ≤ arrivals es
      → (run (start_as browser counted awaits) es).sent ≡ some v
  result_is_sent browser counted awaits es k few =
      run-Lives (start_as browser counted awaits) es (start_as-Lives browser counted awaits k)
        (ground (arith, start_events browser counted awaits))

  -- What becomes of a future that is spawned on a worker, when the events that it awaits arrive, in
  -- any order with the looks of the worker's script. On Node its result is sent. In a browser the
  -- executor does not do what its comment says, the worker does not stay alive for the future: the
  -- result is sent exactly if everything that the future awaits settles in microtasks, and a future
  -- that awaits one event, such as a timer, never sends. If the executor counted its task with
  -- `task_begin` and `task_finished`, the result would be sent on both.
  pub spawn_keeps_no_browser_worker :
      (browser : Bool) (awaits : List Await) (es : List Event)
      → events_of awaits ≤ arrivals es
      → (spawn false awaits es ≡ some v)
        × (spawn true awaits es ≡ (if awaits_event awaits then none else some v))
        × ((run (start_as browser true awaits) es).sent ≡ some v)
  unfolding spawn start
  spawn_keeps_no_browser_worker browser awaits es few = (
    result_is_sent false false awaits es refl few,
    spawn_needs_no_event awaits es,
    result_is_sent browser true awaits es (ground arith) few,
  )
