-- ===== src/Threads/Channel.antt =====
-- A thread's result on its way through the channel of its join handle.
use Prim.Native.String.{String}
use wasm_safe_thread.Base.{ℕ, ◌≡◌, refl, ◌∙◌, sym, subst, false, none, some, List, arith}
use wasm_safe_thread.Mpsc.State.{Choice, message, returned}
use wasm_safe_thread.Mpsc.Machine.{init, run}
use wasm_safe_thread.Mpsc.Sources.{Each, sent, received_was_sent}
use wasm_safe_thread.Threads.Spawn.{
  Outcome, run_all, native_thread, native_join, wasm_thread, sends, wasm_join, wasm_join_async,
  failed,
}
use wasm_safe_thread.Threads.Results.{result, shown, failure, shown_join, wasm_sends_once}

module _ {T : Type 0} (display : String → String) (hs : List (Outcome (Unit {0})))
    (f : Outcome T) where
  sole :
      (es : List (ℕ × Choice (Outcome T)))
      → sent es ≡ sends (wasm_thread display hs f)
      → Each (λ r. r ≡ result display (run_all hs) f) (sent es)
  sole es e =
      subst (Each (λ r. r ≡ result display (run_all hs) f))
        (sym (e ∙ (wasm_sends_once display hs f).0)) (refl, tt)

  -- A thread of the wasm backend sends through the channel what its closure and hooks make it send,
  -- and any number of handles of that channel are cloned, used and dropped in any interleaving. If no
  -- hook panics, then with the message that the receive returns `join`, and `join_async` when the
  -- worker's exit code is 1, give the same as a join of the native backend whose thread runs the same
  -- closure, up to the text of a panic. When the exit code is 2, an error of the worker, `join_async`
  -- fails whatever the closure gave: with the text of its panic, or with that of the exit.
  pub join_gives_outcome :
      (n : ℕ) (es : List (ℕ × Choice (Outcome T))) (t : ℕ) (r : Outcome T)
      → sent es ≡ sends (wasm_thread display hs f)
      → (run (init n) es).pc t ≡ returned (message r)
      → run_all hs ≡ none
      → (wasm_join false (some r) ≡ shown_join display (native_join (native_thread hs f)))
        × (wasm_join_async 1 (some r) ≡ shown_join display (native_join (native_thread hs f)))
        × (wasm_join_async 2 (some r) ≡ failed (failure (shown display f)))
  unfolding native_thread native_join wasm_join wasm_join_async
  join_gives_outcome n es t r e done quiet =
      let k =
        received_was_sent (λ r. r ≡ result display (run_all hs) f) n es t r (sole es e) done in
      ground (arith, k, quiet)
