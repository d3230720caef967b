-- ===== src/Mutex/Spin.antt =====
-- src/mutex/spin.rs: `lock_spin` and `lock_spin_timeout`.
use wasm_safe_thread.Base.{Bool, true, if◌then◌else◌}
use wasm_safe_thread.Mutex.State.{Mem, Pc, Choice, SpinPc, idle, held, spin, swap, clock, late}

module _ {A : Type 0} where
  -- `data_lock.swap(true)` answers the old value.
  unfoldable pub lock_spin : Bool → Choice A → Mem A → SpinPc → Mem A × Pc A
  lock_spin timed c m swap =
      if m.data_lock
      then (record m { data_lock = true }, spin timed (if timed then clock else swap))
      else (record m { data_lock = true }, held)
  lock_spin timed late m clock = (m, idle)
  lock_spin timed c m clock = (m, spin timed swap)
