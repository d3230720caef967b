-- ===== src/Mutex/Machine.antt =====
-- All callers of one mutex, interleaved in any order. A schedule is a list of turns, each a thread
-- and what the environment decides for it.
use wasm_safe_thread.Base.{ℕ, Bool, List, if◌then◌else◌, update, [], ◌∷◌}
use wasm_safe_thread.Mutex.State.{
  Mem, Pc, Choice, Call, BlockPc, AsyncPc, SpinPc, new, idle, block, async, spin, held, loaded,
  unlock, drop, call, write,
}
use wasm_safe_thread.Mutex.Block.{lock_block, try_lock}
use wasm_safe_thread.Mutex.Async
use wasm_safe_thread.Mutex.Spin.{lock_spin}
use wasm_safe_thread.Mutex.Unlock.{drop_guard, did_unlock}

module _ {A : Type 0} where
  abbrev pub start_block : Bool → Pc A
  start_block timed = block timed (if timed then BlockPc.check else BlockPc.enter)

  -- `lock_sync` (src/mutex/sync_impl.rs): blocks where the platform can, and spins elsewhere.
  abbrev pub start_sync : Bool → Bool → Pc A
  start_sync timed wait_supported =
      if wait_supported then start_block timed else spin timed SpinPc.swap

  -- The first access of each call.
  abbrev pub begin : Call → Bool → Mem A → Mem A × Pc A
  begin Call.try_lock w m = try_lock m held idle
  begin (Call.lock_block timed) w m = (m, start_block timed)
  begin (Call.lock_async timed) w m =
      (m, async timed (if timed then AsyncPc.check else AsyncPc.enter))
  begin (Call.lock_spin timed) w m = (m, spin timed SpinPc.swap)
  begin (Call.lock_sync timed) w m = (m, start_sync timed w)

  abbrev pub from_idle : Choice A → Mem A → Mem A × Pc A
  from_idle (call c w) m = begin c w m
  from_idle _ m = (m, idle)

  -- A guard is dropped, or a closure reads the data, and writes it back at its next turn.
  unfoldable pub with_guard : Choice A → Mem A → Mem A × Pc A
  unfolding drop_guard
  with_guard drop m = drop_guard m
  with_guard (write f) m = (m, loaded f m.inner)
  with_guard _ m = (m, held)

  unfoldable pub turn : Choice A → ℕ → Mem A → Pc A → Mem A × Pc A
  unfolding with_guard
  turn c t m idle = from_idle c m
  turn c t m (block timed p) = lock_block timed c t m p
  turn c t m (async timed p) = Async.lock_async timed c m p
  turn c t m (spin timed p) = lock_spin timed c m p
  turn c t m held = with_guard c m
  turn c t m (loaded f a) = (record m { inner = f a }, held)
  turn c t m (unlock p) = did_unlock m p

pub record System (A : Type 0) : Type 0 where
  pub mem : Mem A
  pub pc : ℕ → Pc A

module _ {A : Type 0} where
  unfoldable pub step : System A → ℕ × Choice A → System A
  step s (t, c) = let r = turn c t s.mem (s.pc t) in record { mem = r.0; pc = update s.pc t r.1 }

  abbrev pub init : A → System A
  init value = record { mem = new value; pc = λ _. idle }

  unfoldable pub run : System A → List (ℕ × Choice A) → System A
  run s [] = s
  run s (e ∷ es) = run (step s e) es

  -- What every turn keeps, every schedule keeps.
  pub run_inv :
      (P : System A → Type 0)
      → ((s : System A) (e : ℕ × Choice A) → P s → P (step s e))
      → (s : System A) (es : List (ℕ × Choice A)) → P s
      → P (run s es)
  unfolding run
  run_inv P keep s [] v = v
  run_inv P keep s (e ∷ es) v = run_inv P keep (step s e) es (keep s e v)
