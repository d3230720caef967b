-- ===== src/Threads/PanicHook.antt =====
-- The panic hook that every spawned thread puts around the one before, in the closure of
-- `Builder::spawn` of src/wasm/thread_api.rs: threads that start at the same time, and one that panics.
use wasm_safe_thread.Base.{
  ℕ, ◌≡◌, ◌≢◌, ◌⊎◌, inl, inr, refl, Bool, true, false, List, [], ◌∷◌, if◌then◌else◌, update, arith,
}

-- The hook of the process: that of the standard library; one that the program has set; and a
-- spawned thread's, around the hook that it took.
pub data Hook : Type 0 where
  standard own : Hook
  around : (prev_hook : Hook) → Hook

-- What a panic does: a hook prints, or the message goes to the thread's join handle.
pub data Report : Type 0 where
  by_standard by_own sent : Report

-- A panic of a thread, whose `PANIC_SENDER` may be there.
unfoldable pub run_hook : Hook → (has_sender : Bool) → Report
run_hook standard has_sender = by_standard
run_hook own has_sender = by_own
run_hook (around prev_hook) has_sender =
    let prev = run_hook prev_hook has_sender in if has_sender then sent else prev

-- A thread that is not spawned here; one that has its `PANIC_SENDER` and is before `take_hook`;
-- between `take_hook` and `set_hook`; in its hooks and closure; and after them, without the sender.
pub data Pc : Type 0 where
  foreign starting : Pc
  holding : (prev_hook : Hook) → Pc
  running finished : Pc

pub record System : Type 0 where
  pub hook : Hook
  pub pc : ℕ → Pc

-- A thread begins, as a worker that is spawned; or takes a turn.
pub data Event : Type 0 where
  begin go : (thread : ℕ) → Event

abbrev pub begin_in : Pc → ℕ → System → System
begin_in foreign t s = record s { pc = update s.pc t starting }
begin_in _ t s = s

-- `take_hook` leaves the standard hook in its place.
unfoldable pub turn : Pc → ℕ → System → System
turn foreign t s = s
turn starting t s = record s { hook = standard; pc = update s.pc t (holding s.hook) }
turn (holding prev_hook) t s = record s { hook = around prev_hook; pc = update s.pc t running }
turn running t s = record s { pc = update s.pc t finished }
turn finished t s = s

unfoldable pub step : System → Event → System
unfolding turn
step s (begin t) = begin_in (s.pc t) t s
step s (go t) = turn (s.pc t) t s

abbrev pub init : System
init = record { hook = own; pc = λ t. foreign }

unfoldable pub run : System → List Event → System
run s [] = s
run s (e ∷ es) = run (step s e) es

abbrev pub has_sender : Pc → Bool
has_sender foreign = false
has_sender finished = false
has_sender _ = true

-- A panic of thread `t`.
unfoldable pub panic : ℕ → System → Report
unfolding run_hook
panic t s = run_hook s.hook (has_sender (s.pc t))

abbrev pub is_holding : Pc → Bool
is_holding (holding prev_hook) = true
is_holding _ = false

abbrev is_around : Hook → Bool
is_around (around prev_hook) = true
is_around _ = false

abbrev is_running : Pc → Bool
is_running running = true
is_running _ = false

abbrev IsReady : System → Type 0
IsReady s = (is_around s.hook ≡ true) ⊎ ((u : ℕ) × (is_holding (s.pc u) ≡ true))

-- While a thread runs its closure, the hook is a thread's, or some thread holds one.
Ready : System → Type 0
Ready s = (t : ℕ) → is_running (s.pc t) ≡ true → IsReady s

set-IsReady :
    (s : System) (t : ℕ) (p : Pc)
    → is_holding (s.pc t) ≡ false
    → IsReady s
    → IsReady (record s { pc = update s.pc t p })
set-IsReady s t p free (inl k) = inl k
set-IsReady s t p free (inr (u, k)) = inr (u, ground arith)

-- A thread that holds no hook goes on, without running its closure then.
moved-Ready :
    (s : System) (t : ℕ) (p : Pc)
    → is_holding (s.pc t) ≡ false
    → is_running p ≡ false
    → Ready s
    → Ready (record s { pc = update s.pc t p })
unfolding Ready
moved-Ready s t p free idle v w k = set-IsReady s t p free (v w (ground arith))

begun-Ready : (p : Pc) (s : System) (t : ℕ) → s.pc t ≡ p → Ready s → Ready (begin_in p t s)
begun-Ready foreign s t e v = moved-Ready s t starting (ground arith) refl v
begun-Ready p s t e v = v

turned-Ready : (p : Pc) (s : System) (t : ℕ) → s.pc t ≡ p → Ready s → Ready (turn p t s)
unfolding Ready turn
turned-Ready starting s t e v = λ w k. inr (t, ground arith)
turned-Ready (holding prev_hook) s t e v = λ w k. inl refl
turned-Ready running s t e v = moved-Ready s t finished (ground arith) refl v
turned-Ready foreign s t e v = v
turned-Ready finished s t e v = v

run-Ready : (s : System) (es : List Event) → Ready s → Ready (run s es)
unfolding run step
run-Ready s [] v = v
run-Ready s (begin t ∷ es) v =
    run-Ready (begin_in (s.pc t) t s) es (begun-Ready (s.pc t) s t refl v)
run-Ready s (go t ∷ es) v = run-Ready (turn (s.pc t) t s) es (turned-Ready (s.pc t) s t refl v)

ready : (es : List Event) → Ready (run init es)
unfolding Ready
ready es = run-Ready init es (λ t k. cc)

sent_by : (h : Hook) (p : Pc) → is_around h ≡ true → p ≡ running → run_hook h (has_sender p) ≡ sent
unfolding run_hook
sent_by h p k e = ground arith

-- A panic that is not sent is one at which some thread holds the hook.
panic_when_free :
    (s : System) (t : ℕ)
    → Ready s
    → s.pc t ≡ running
    → ((u : ℕ) → is_holding (s.pc u) ≡ false)
    → panic t s ≡ sent
unfolding panic Ready
panic_when_free s t v e free = elim (v t (rw e refl)) [
  | inl k ↦ sent_by s.hook (s.pc t) k e
  | inr (u, k) ↦ cc (k, free u)
]

panic_when_taken :
    (s : System) (t u : ℕ)
    → s.pc t ≡ running
    → s.pc u ≡ starting
    → panic t (step s (go u)) ≡ by_standard
unfolding panic step turn run_hook
panic_when_taken s t u e k = ground arith

back_and_sent :
    (s : System) (t u : ℕ)
    → s.pc t ≡ running
    → s.pc u ≡ starting
    → panic t (step (step s (go u)) (go u)) ≡ sent
unfolding panic step turn run_hook
back_and_sent s t u e k = ground arith

-- Two threads that start one after the other, and at the same time.
two_start :
    (s : System) (u v w : ℕ)
    → s.pc u ≡ starting
    → s.pc v ≡ starting
    → s.pc w ≡ foreign
    → u ≢ v
    → (panic w (run s (go u ∷ go u ∷ go v ∷ go v ∷ [])) ≡ panic w s)
      × (panic w (run s (go u ∷ go v ∷ go u ∷ go v ∷ [])) ≡ by_standard)
unfolding panic run step turn run_hook
two_start s u v w e k f ne = ground arith

-- What becomes of panics while threads start. Whatever threads have started and ended before, while
-- no thread is between its `take_hook` and its `set_hook`, the panic of a thread in its closure is
-- sent through the channel of its handle, however many hooks are around one another. But when another
-- thread has called `take_hook`, the panic goes to the standard hook and is not sent, until one turn
-- later `set_hook` is called. And the panic of a thread that was not spawned here goes to the same
-- hook as before once two threads have started one after the other; if both call `take_hook` before
-- they call `set_hook`, it goes to the standard hook, and the hook that the program had is lost.
pub starting_threads_take_hook :
    (es : List Event) (t u v w : ℕ)
    → (run init es).pc t ≡ running
    → (run init es).pc u ≡ starting
    → (run init es).pc v ≡ starting
    → (run init es).pc w ≡ foreign
    → u ≢ v
    → ((x : ℕ) → is_holding ((run init es).pc x) ≡ false)
    → let s = run init es in
      (panic t s ≡ sent)
      × (panic t (run s (go u ∷ [])) ≡ by_standard)
      × (panic t (run s (go u ∷ go u ∷ [])) ≡ sent)
      × (panic w (run s (go u ∷ go u ∷ go v ∷ go v ∷ [])) ≡ panic w s)
      × (panic w (run s (go u ∷ go v ∷ go u ∷ go v ∷ [])) ≡ by_standard)
unfolding run
starting_threads_take_hook es t u v w e k k' f ne free =
    let s = run init es in
    let (one_by_one, together) = two_start s u v w k k' f ne in
    (
      panic_when_free s t (ready es) e free,
      panic_when_taken s t u e k,
      back_and_sent s t u e k,
      one_by_one,
      together,
    )
