-- ===== src/Condvar/Notify.antt =====
-- src/condvar/notify.rs: `notify_one` and `notify_all`.
use wasm_safe_thread.Base.{ℕ, List, [], ◌∷◌, Option, none, some, pop}
use wasm_safe_thread.Condvar.State.{How, spin, block, async, Cond, list, set_list, wake_one}

-- `notify_one` before it pops a list, and before it wakes what it popped; `notify_all` before it
-- takes a list, and in the loop over what it took.
pub data NotifyPc : Type 0 where
  pop_from : How → NotifyPc
  wake : How → ℕ → NotifyPc
  take : How → NotifyPc
  wake_all : How → List ℕ → NotifyPc
  done : NotifyPc

-- The first access of each.
abbrev pub notify_one : NotifyPc
notify_one = pop_from spin

abbrev pub notify_all : NotifyPc
notify_all = take spin

-- The order of the lists.
abbrev pub or_else : How → NotifyPc
or_else spin = pop_from block
or_else block = pop_from async
or_else async = done

abbrev pub and_then : How → NotifyPc
and_then spin = take block
and_then block = take async
and_then async = done

abbrev popped : How → Option (ℕ × List ℕ) → Cond → Cond × NotifyPc
popped h none c = (c, or_else h)
popped h (some (k, rest)) c = (set_list h rest c, wake h k)

unfoldable pub notify : Cond → NotifyPc → Cond × NotifyPc
notify c (pop_from h) = popped h (pop (list h c)) c
notify c (wake h k) = (wake_one h k c, done)
notify c (take h) = (set_list h [] c, wake_all h (list h c))
notify c (wake_all h []) = (c, and_then h)
notify c (wake_all h (k ∷ ks)) = (wake_one h k c, wake_all h ks)
notify c done = (c, done)
