-- ===== src/Threads/Tasks.antt =====
-- `PENDING_TASKS`, `task_begin` and `task_finished` of src/wasm.rs, and the loop of a worker's script
-- that waits for its tasks.
use wasm_safe_thread.Base.{
  ℕ, zero, suc, ◌+◌, ◌-◌, ◌%◌, ◌≡◌, ◌<◌, ◌≤◌, refl, inl, inr, Bool, true, false, Option, none, some,
  List, [], ◌∷◌, if◌then◌else◌, ◌==◌, ◌&&◌, arith, Bool-cases,
}

abbrev pub u32 : ℕ
u32 = 4294967296

-- `checked` is a debug build, where an overflow and a failed `debug_assert!` panic.
unfoldable pub task_begin : Bool → ℕ → Option ℕ
task_begin checked pending =
    if checked && pending == u32 - 1 then none else some ((pending + 1) % u32)

unfoldable pub task_finished : Bool → ℕ → Option ℕ
task_finished checked pending =
    if checked && pending == 0 then none else some ((pending + (u32 - 1)) % u32)

-- A worker with its pending tasks, one that has posted its exit and closed, and one that failed.
pub data Worker : Type 0 where
  running : (pending : ℕ) → Worker
  exited failed : Worker

-- A task begins or finishes, and the script looks at the pending tasks.
pub data Event : Type 0 where
  begin finish poll : Event

abbrev pub unless_panicked : Option ℕ → Worker
unless_panicked (some pending) = running pending
unless_panicked none = failed

-- `while (true) { if (pending === 0) break; … }`, and the exit after it.
unfoldable pub step : Bool → Worker → Event → Worker
unfolding task_begin task_finished
step checked (running p) begin = unless_panicked (task_begin checked p)
step checked (running p) finish = unless_panicked (task_finished checked p)
step checked (running p) poll = if p == 0 then exited else running p
step checked w e = w

unfoldable pub run : Bool → Worker → List Event → Worker
run checked w [] = w
run checked w (e ∷ es) = run checked (step checked w e) es

abbrev pub begun : List Event → ℕ
begun [] = 0
begun (begin ∷ es) = suc (begun es)
begun (e ∷ es) = begun es

abbrev pub finished : List Event → ℕ
finished [] = 0
finished (finish ∷ es) = suc (finished es)
finished (e ∷ es) = finished es

stopped :
    (checked : Bool) (es : List Event)
    → (run checked exited es ≡ exited) × (run checked failed es ≡ failed)
unfolding run step
stopped checked [] = (refl, refl)
stopped checked (e ∷ es) = stopped checked es

run_pending :
    (checked : Bool) (es : List Event) (p q : ℕ)
    → q < u32
    → run checked (running q) es ≡ running p
    → (p < u32) × ((p + finished es) % u32 ≡ (q + begun es) % u32)
unfolding run step task_begin task_finished
run_pending checked [] p q small e = ground arith
run_pending checked (begin ∷ es) p q small e = elim (Bool-cases (checked && q == u32 - 1)) [
  | inl full ↦ ground (arith, (stopped checked es).1)
  | inr room ↦ ground (arith, run_pending checked es p ((q + 1) % u32))
]
run_pending checked (finish ∷ es) p q small e = elim (Bool-cases (checked && q == 0)) [
  | inl bad ↦ ground (arith, (stopped checked es).1)
  | inr fine ↦ ground (arith, run_pending checked es p ((q + (u32 - 1)) % u32))
]
run_pending checked (poll ∷ es) p q small e = elim (Bool-cases (q == 0)) [
  | inl empty ↦ ground (arith, (stopped checked es).0)
  | inr some_left ↦ ground (arith, run_pending checked es p q)
]

-- While a worker runs, its count is that of the tasks begun and not finished; it exits at the next
-- look at the count exactly if every task that began has finished. The tasks are fewer than 2^32,
-- and no more finish than begin.
pub worker_waits_for_tasks :
    (checked : Bool) (es : List Event) (p : ℕ)
    → run checked (running 0) es ≡ running p
    → begun es < u32
    → finished es ≤ begun es
    → (p + finished es ≡ begun es)
      × (step checked (running p) poll ≡ (if begun es == finished es then exited else running p))
unfolding step
worker_waits_for_tasks checked es p e few matched =
    ground (arith, run_pending checked es p 0 (omega arith) e)

abbrev pub polls : ℕ → List Event
polls zero = []
polls (suc n) = poll ∷ polls n

polls_lem : (n : ℕ) → run false (running (u32 - 1)) (polls n) ≡ running (u32 - 1)
unfolding run step
polls_lem zero = refl
polls_lem (suc n) = polls_lem n

-- A task that finishes without having begun panics in a debug build; in any other the count wraps,
-- and the worker does not exit, however often it looks at the count.
pub unmatched_finish :
    (looks : ℕ)
    → (run true (running 0) (finish ∷ polls looks) ≡ failed)
      × (run false (running 0) (finish ∷ polls looks) ≡ running (u32 - 1))
unfolding run step task_finished
unmatched_finish n = ((stopped true (polls n)).1, polls_lem n)
