-- ===== src/Parking/Safety.antt =====
-- A parked thread is woken by whoever unparks it, and by nobody else.
use wasm_safe_thread.Base.{
  ℕ, ◌≡◌, ◌≢◌, ◌≤◌, refl, ◌⊎◌, inl, inr, Bool, true, false, List, [], ◌∷◌, ◌==◌, arith, Bool-cases,
}
use wasm_safe_thread.Parking.Machine.{
  ok, ParkPc, running, wait, asleep, returned, UnparkPc, idle, store, notify, Choice, park,
  park_timeout, go, Event, mine, other, System, step, init, run, run_inv, park_turn, unpark_turn,
  woken,
}

abbrev pub is_asleep : ParkPc → Bool
is_asleep (asleep _) = true
is_asleep _ = false

abbrev pub notifies : UnparkPc → Bool
notifies notify = true
notifies _ = false

abbrev pub start : Bool → Choice
start true = park_timeout
start false = park

-- While the owner sleeps with a token, some thread is about to notify it.
record Inv (s : System) : Type 0 where
  small : s.word ≤ 1
  alert : is_asleep s.owner ≡ true → s.word ≢ 0 → (u : ℕ) × (notifies (s.others u) ≡ true)

fell_asleep :
    (supported : Bool) (c : Choice) (word : ℕ) (p : ParkPc)
    → is_asleep (park_turn supported c word p).1 ≡ true
    → (is_asleep p ≡ true) ⊎ (word ≡ 0)
unfolding park_turn
fell_asleep supported c word p h = ground arith

small_word :
    (supported : Bool) (c : Choice) (word : ℕ) (p : ParkPc)
    → word ≤ 1
    → (park_turn supported c word p).0 ≤ 1
unfolding park_turn
small_word supported c word p h = ground arith

asleep_word :
    (supported : Bool) (c : Choice) (word : ℕ) (p : ParkPc)
    → is_asleep (park_turn supported c word p).1 ≡ true
    → (park_turn supported c word p).0 ≡ word
unfolding park_turn
asleep_word supported c word p h = ground arith

unpark-Inv : (s : System) (u : ℕ) (p : UnparkPc) → s.others u ≡ p → Inv s → Inv (unpark_turn u p s)
unfolding unpark_turn
unpark-Inv s u idle e v = record {
  small = v.small;
  alert = λ a w. let k = v.alert a w in (k.0, ground arith);
}
unpark-Inv s u store e v = record { small = omega arith; alert = λ a w. (u, ground arith) }
unpark-Inv s u notify e v = record { small = v.small; alert = λ a w. absurd (never s.owner a) }
  where
    never : (p : ParkPc) → is_asleep (woken p) ≡ true → ⊥
    never p a = ground arith

step-Inv : (s : System) (e : Event) → Inv s → Inv (step s e)
unfolding step
step-Inv s (mine c) v = record {
  small = small_word s.supported c s.word s.owner v.small;
  alert = λ a w. elim (fell_asleep s.supported c s.word s.owner a) [
    | inl old ↦ v.alert old (λ z. w (ground (arith, asleep_word s.supported c s.word s.owner a)))
    | inr zero_word ↦ absurd (w (ground (arith, asleep_word s.supported c s.word s.owner a)))
  ];
}
step-Inv s (other u) v = unpark-Inv s u (s.others u) refl v

run-Inv : (w : Bool) (es : List Event) → Inv (run (init w) es)
run-Inv w es = run_inv Inv step-Inv (init w) es (record { small = omega arith; alert = λ a z. cc })

-- After any interleaving, while no thread is between the two accesses of `unpark`, a thread that
-- sleeps in `park` or `park_timeout` has no token: no unpark is lost.
pub no_unpark_lost :
    (supported : Bool) (es : List Event)
    → ((u : ℕ) → notifies ((run (init supported) es).others u) ≡ false)
    → is_asleep (run (init supported) es).owner ≡ true
    → (run (init supported) es).word ≡ 0
no_unpark_lost w es quiet a = elim (Bool-cases ((run (init w) es).word == 0)) [
  | inl z ↦ ground arith
  | inr nz ↦ let k = (run-Inv w es).alert a (λ z. ground arith) in cc (quiet k.0)
]

-- After any interleaving the word is 0 or 1.
pub word_bound : (supported : Bool) (es : List Event) → (run (init supported) es).word ≤ 1
word_bound w es = (run-Inv w es).small

-- An `unpark`, run to its end, wakes a thread that sleeps in `park` or `park_timeout`: its next turn
-- returns, and consumes the token.
pub unpark_wakes :
    (s : System) (u : ℕ) (timed : Bool)
    → s.others u ≡ idle
    → s.owner ≡ asleep timed
    → let s' = run s (other u ∷ other u ∷ other u ∷ mine go ∷ []) in
      (s'.owner ≡ returned ok) × (s'.word ≡ 0)
unfolding run step unpark_turn park_turn
unpark_wakes s u timed e a = ground arith

-- When a thread is unparked before it parks, its next `park` or `park_timeout` returns without
-- waiting and consumes the token, also in a context that may not block, and the park after it does
-- not find a token.
pub unpark_before_park :
    (s : System) (u : ℕ) (timed : Bool)
    → s.others u ≡ idle
    → s.owner ≡ running
    → let s' = run s (other u ∷ other u ∷ other u ∷ mine (start timed) ∷ mine go ∷ []) in
      (s'.owner ≡ returned ok)
      × (s'.word ≡ 0)
      × ((run s' (mine go ∷ mine (start timed) ∷ mine go ∷ [])).owner ≡ wait timed)
unfolding run step unpark_turn park_turn
unpark_before_park s u true e r = ground arith
unpark_before_park s u false e r = ground arith
