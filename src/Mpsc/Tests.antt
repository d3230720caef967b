-- ===== src/Mpsc/Tests.antt =====
-- The theorems on a channel, for two senders and the receiver.
use wasm_safe_thread.Base.{
  ℕ, zero, suc, ◌≡◌, refl, true, false, List, [], ◌∷◌, ◌++◌, arith, pop_last,
}
use wasm_safe_thread.Interleave.{count}
use wasm_safe_thread.Condvar.State.{spin, block}
use wasm_safe_thread.Condvar.Notify.{notify}
use wasm_safe_thread.Condvar.Wait.{go, spurious, sleep, wait}
use wasm_safe_thread.Mpsc.State.{Choice, absent, waiting, event, send, drop, clone, receive}
use wasm_safe_thread.Mpsc.Send.{send_turn}
use wasm_safe_thread.Mpsc.Recv.{recv_turn}
use wasm_safe_thread.Mpsc.Machine.{turn, step, run, init}
use wasm_safe_thread.Mpsc.Roles.{alive}
use wasm_safe_thread.Mpsc.Safety.{disconnected_is_final}
use wasm_safe_thread.Mpsc.Unsent.{is_receiving, alone, unsent_never_returns}
use wasm_safe_thread.Mpsc.Delivery.{no_message_stranded}
use wasm_safe_thread.Mpsc.Notifying.{is_notifying}
use wasm_safe_thread.Mpsc.Stranded.{late_registration, dropped_sender_strands_receiver}

abbrev goes : ℕ → ℕ → List (ℕ × Choice ℕ)
goes t zero = []
goes t (suc n) = (t, event go) ∷ goes t n

-- Thread 1 clones its sender for thread 2; they send 5 and 6, and thread 0 receives one message.
abbrev two_sends : List (ℕ × Choice ℕ)
two_sends =
    (1, clone 2) ∷ (1, send 5) ∷ goes 1 5
    ++ ((2, send 6) ∷ goes 2 5)
    ++ ((0, receive spin false) ∷ goes 0 3)

two_sends-run :
    ((run (init 3) two_sends).received ≡ 5 ∷ []) × ((run (init 3) two_sends).shared.queue ≡ 6 ∷ [])
unfolding run step turn send_turn recv_turn
two_sends-run = (refl, refl)

-- Thread 1 sends 5 and drops its sender; thread 0 receives it, and then receives once more.
abbrev send_and_drop : List (ℕ × Choice ℕ)
send_and_drop =
    (1, send 5) ∷ goes 1 9
    ++ ((1, drop) ∷ goes 1 6)
    ++ ((0, receive spin false) ∷ goes 0 4)
    ++ ((0, receive spin false) ∷ goes 0 4)

disconnected_is_final_example :
    let s = run (init 2) send_and_drop in (count alive s.threads s.pc ≡ 0) × (s.received ≡ s.pushed)
unfolding run step turn send_turn recv_turn notify
disconnected_is_final_example = disconnected_is_final 0 send_and_drop 0 (omega arith) refl

-- The receiver is dropped, and thread 1 sends.
abbrev send_after_close : List (ℕ × Choice ℕ)
send_after_close = (0, drop) ∷ (1, send 5) ∷ goes 1 1

-- Thread 0 has seen an empty queue and one sender.
abbrev before_registration : List (ℕ × Choice ℕ)
before_registration = (0, receive spin false) ∷ goes 0 3

stranded_example :
    let s' = run (run (init 2) before_registration) (late_registration ++ goes 0 9) in
    (s'.pc 0 ≡ waiting spin false (sleep 0)) × (s'.pc 1 ≡ absent)
unfolding run step turn send_turn recv_turn
stranded_example =
    dropped_sender_strands_receiver (run (init 2) before_registration) (goes 0 9) refl refl refl
      refl (refl, refl, refl) refl

-- Thread 0 parks, `park` returns for no reason and it parks again; thread 1 sends 5.
abbrev send_to_parked : List (ℕ × Choice ℕ)
send_to_parked =
    (0, receive block false) ∷ goes 0 5
    ++ ((0, event spurious) ∷ goes 0 5)
    ++ ((1, send 5) ∷ goes 1 9)

send_to_parked-quiet : (u : ℕ) → is_notifying ((run (init 2) send_to_parked).pc u) ≡ false
unfolding run step turn send_turn recv_turn notify wait pop_last
send_to_parked-quiet u = ground arith

no_message_stranded_example : (run (init 2) send_to_parked).shared.cond.token 0 ≡ true
unfolding run step turn send_turn recv_turn notify wait pop_last
no_message_stranded_example =
    no_message_stranded block 0 send_to_parked 0 refl (omega arith) (ground arith)
      send_to_parked-quiet refl

unsent_never_returns_example :
    let s =
      run
        (init {A = ℕ} 2)
        ((0, receive spin false) ∷ alone (event go ∷ event go ∷ event go ∷ [])) in
    (is_receiving (s.pc 0) ≡ true) × (s.received ≡ [])
unsent_never_returns_example =
    unsent_never_returns {A = ℕ} spin (event go ∷ event go ∷ event go ∷ [])
