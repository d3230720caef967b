-- ===== src/Parking/Tests.antt =====
-- The theorems on the park token, for an owner and two other threads.
use wasm_safe_thread.Base.{ℕ, ◌≡◌, refl, true, false, List, [], ◌∷◌}
use wasm_safe_thread.Parking.Machine.{
  ok, asleep, returned, panicked, park, go, Event, mine, other, System, step, init, run, park_turn,
  unpark_turn,
}
use wasm_safe_thread.Parking.Spec.{Tokens, token, labels, word_refines_token}
use wasm_safe_thread.Parking.Safety.{notifies, no_unpark_lost}

-- The owner falls asleep.
abbrev sleeps : List Event
sleeps = mine park ∷ mine go ∷ mine go ∷ []

-- Thread 2 unparks it, late.
abbrev unparked_late : List Event
unparked_late =
    other 2
    ∷ other 2
    ∷ mine park
    ∷ mine go
    ∷ mine go
    ∷ mine park
    ∷ mine go
    ∷ mine go
    ∷ other 2
    ∷ mine go
    ∷ []

-- One unpark makes two parks return: the first finds its token, the second gets its notification.
unparked_late-run : (run (init true) unparked_late).owner ≡ returned ok
unfolding run step park_turn unpark_turn
unparked_late-run = refl

word_refines_token_example :
    Tokens false (labels (init true) unparked_late) (token (run (init true) unparked_late))
word_refines_token_example = word_refines_token (init true) unparked_late

nobody_notifies : (u : ℕ) → notifies ((run (init true) sleeps).others u) ≡ false
unfolding run step park_turn unpark_turn
nobody_notifies u = refl

no_unpark_lost_example : (run (init true) sleeps).word ≡ 0
unfolding run step park_turn unpark_turn
no_unpark_lost_example = no_unpark_lost true sleeps nobody_notifies refl

abbrev sleeping : System
sleeping = record (init true) { owner = asleep true }

-- A context that may not block panics in `park`, unless it has been unparked.
no_wait-run : (run (init false) (mine park ∷ mine go ∷ mine go ∷ mine go ∷ [])).owner ≡ panicked
unfolding run step park_turn
no_wait-run = refl
