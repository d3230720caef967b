-- ===== src/Parking/Spec.antt =====
-- The token as the documentation of `park` and `unpark` has it, and the word as its implementation.
use wasm_safe_thread.Base.{
  ℕ, ◌≡◌, refl, ap, Bool, true, false, List, [], ◌∷◌, arith, ◌==◌, inl, inr, Bool-cases,
}
use wasm_safe_thread.Parking.Machine.{
  Wake, ok, not_equal, timed_out, unsupported, ParkPc, running, exchange, wait, asleep, clear,
  returned, panicked, UnparkPc, idle, store, notify, Choice, Event, mine, other, System, consume,
  step, run, park_turn, unpark_turn,
}

-- What one turn does, seen from outside: nothing; an `unpark` makes the token available; a park finds
-- the token, or finds none and goes on to `Atomics.wait` or to sleep there; and a park or park with a timeout that has been in `Atomics.wait`
-- returns with its answer.
pub data Label : Type 0 where
  silent unparks finds finds_none : Label
  wakes : (timed : Bool) → (answer : Wake) → Label

abbrev pub is_ok : Wake → Bool
is_ok ok = true
is_ok _ = false

-- `unpark` makes the token available. A park takes the token that it finds, and goes on to wait and
-- to sleep only if there is none. After `Atomics.wait` a park leaves no token, whether one came
-- meanwhile or not; one with a timeout leaves none when it was woken, and otherwise leaves the token
-- as it is. Nothing else touches it.
pub data Token : Bool → Label → Bool → Type 0 where
  nothing : {b b' : Bool} → b' ≡ b → Token b silent b'
  give : {b b' : Bool} → b' ≡ true → Token b unparks b'
  take : {b b' : Bool} → b ≡ true → b' ≡ false → Token b finds b'
  need : {b b' : Bool} → b ≡ false → b' ≡ false → Token b finds_none b'
  clear_park : {b b' : Bool} {r : Wake} → b' ≡ false → Token b (wakes false r) b'
  clear_timed : {b b' : Bool} → b' ≡ false → Token b (wakes true ok) b'
  keep : {b b' : Bool} {r : Wake} → is_ok r ≡ false → b' ≡ b → Token b (wakes true r) b'

abbrev pub token : System → Bool
token s = s.word == 1

-- A park that may not block does not return, and panics.
abbrev pub parking : ParkPc → ParkPc → Label
parking (exchange _) (returned _) = finds
parking (exchange _) _ = finds_none
parking (wait _) (asleep _) = finds_none
parking (clear timed r) _ = wakes timed r
parking p _ = silent

abbrev pub unparking : UnparkPc → Label
unparking store = unparks
unparking _ = silent

-- The label of a turn, from where the thread stood and where it stands.
abbrev pub label : System → Event → Label
label s (mine c) = parking s.owner (step s (mine c)).owner
label s (other u) = unparking (s.others u)

module _ (supported : Bool) (c : Choice) (word : ℕ) where
  abbrev after : ParkPc → ℕ × ParkPc
  after p = park_turn supported c word p

  exchange-Token :
      (timed : Bool)
      → let p = exchange timed in Token (word == 1) (parking p (after p).1) ((after p).0 == 1)
  unfolding park_turn
  exchange-Token timed = elim (Bool-cases (word == 1)) [
    | inl there ↦ rw there (take refl refl)
    | inr gone ↦ rw gone (need refl gone)
  ]

  wait-Token :
      (timed : Bool)
      → let p = wait timed in Token (word == 1) (parking p (after p).1) ((after p).0 == 1)
  unfolding park_turn
  wait-Token timed = elim (Bool-cases supported) [
    | inr never ↦ rw never (nothing refl)
    | inl may ↦ elim (Bool-cases (word == 0)) [
      | inl zeroed ↦
          let none_there : (word == 1) ≡ false = ground arith in
          rw (may, zeroed) (need none_there none_there)
      | inr nonzero ↦ rw (may, nonzero) (nothing refl)
    ]
  ]

  kept : (p : ParkPc) → parking p (after p).1 ≡ silent → (after p).0 ≡ word
  unfolding park_turn
  kept p e = ground arith

  clear-Token :
      (timed : Bool) (r : Wake) → Token (word == 1) (wakes timed r) (consume timed r word == 1)
  clear-Token false r = clear_park refl
  clear-Token true ok = clear_timed refl
  clear-Token true not_equal = keep refl refl
  clear-Token true timed_out = keep refl refl
  clear-Token true unsupported = keep refl refl

  park_turn-Token : (p : ParkPc) → Token (word == 1) (parking p (after p).1) ((after p).0 == 1)
  unfolding park_turn
  park_turn-Token (exchange timed) = exchange-Token timed
  park_turn-Token (wait timed) = wait-Token timed
  park_turn-Token (clear timed r) = clear-Token timed r
  park_turn-Token running = nothing (ap (λ w. w == 1) (kept running refl))
  park_turn-Token (asleep timed) = nothing (ap (λ w. w == 1) (kept (asleep timed) refl))
  park_turn-Token (returned r) = nothing refl
  park_turn-Token panicked = nothing refl

unpark_turn-Token :
    (u : ℕ) (p : UnparkPc) (s : System) → Token (token s) (unparking p) (token (unpark_turn u p s))
unfolding unpark_turn
unpark_turn-Token u idle s = nothing refl
unpark_turn-Token u store s = give refl
unpark_turn-Token u notify s = nothing refl

-- Every turn does to the token what its label allows.
step-Token : (s : System) (e : Event) → Token (token s) (label s e) (token (step s e))
unfolding step
step-Token s (mine c) = park_turn-Token s.supported c s.word s.owner
step-Token s (other u) = unpark_turn-Token u (s.others u) s

-- The labels of a schedule, and what the documentation allows them to do to the token.
unfoldable pub labels : System → List Event → List Label
labels s [] = []
labels s (e ∷ es) = label s e ∷ labels (step s e) es

pub data Tokens : Bool → List Label → Bool → Type 0 where
  end : {b : Bool} → Tokens b [] b
  next :
      {b b' b'' : Bool} {l : Label} {ls : List Label}
      → Token b l b'
      → Tokens b' ls b''
      → Tokens b (l ∷ ls) b''

-- The word implements the token. Whatever the owner and the other threads do, a park that finds the
-- token takes it, and a park goes on to wait and to sleep only when there is none; a park without a
-- timeout that returns from `Atomics.wait` leaves no token; one with a timeout leaves none when it was
-- woken, and otherwise leaves the token as it is; an unpark makes the token available, and no other
-- turn changes it.
pub word_refines_token :
    (s : System) (es : List Event) → Tokens (token s) (labels s es) (token (run s es))
unfolding run labels
word_refines_token s [] = end
word_refines_token s (e ∷ es) = next (step-Token s e) (word_refines_token (step s e) es)
