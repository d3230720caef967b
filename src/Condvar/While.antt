-- ===== src/Condvar/While.antt =====
-- `wait_block_while`, `wait_spin_while`, `wait_sync_while`, `wait_async_while` and their timed
-- variants: one loop, over a wait that is given by what it returned each time.
use wasm_safe_thread.Base.{
  ◌≡◌, inl, inr, Bool, true, false, List, [], ◌∷◌, ◌++◌, Option, none, some, arith, Bool-cases,
  if◌then◌else◌,
}

module _ {D : Type 0} (condition : D → Bool × D) where
  -- `waits` has, for each wait, the data that the waiter finds when it has the guard again, and
  -- whether the wait timed out; without a deadline none does. The condition may change the data.
  -- `none` is a loop that still waits after these waits.
  unfoldable pub wait_while : D → List (D × Bool) → Option (D × Bool)
  wait_while d [] = let r = condition d in if r.0 then none else some (r.1, false)
  wait_while d ((d', timed_out) ∷ waits) =
      let r = condition d in
      let rest = wait_while d' waits in
      if r.0 then (if timed_out then some (d', true) else rest) else some (r.1, false)

  -- The loop goes on after this wait.
  abbrev pub goes_on : D × Bool → Bool
  goes_on (d, timed_out) = if timed_out then false else (condition d).0

  abbrev pub AllGoOn : List (D × Bool) → Type 0
  AllGoOn [] = Unit {0}
  AllGoOn (w ∷ ws) = (goes_on w ≡ true) × AllGoOn ws

  -- What the loop returns when it ends with this wait.
  abbrev pub ending : D × Bool → D × Bool
  ending (d, timed_out) = if timed_out then (d, true) else ((condition d).1, false)

  -- The loop ends with the first wait that times out, or after which the condition is false, and
  -- not before: it returns the data of that wait, and whether it timed out.
  pub wait_while_ends :
      (d : D) (before : List (D × Bool)) (w : D × Bool) (later : List (D × Bool))
      → (condition d).0 ≡ true
      → AllGoOn before
      → goes_on w ≡ false
      → (wait_while d before ≡ none) × (wait_while d (before ++ w ∷ later) ≡ some (ending w))
  unfolding wait_while
  wait_while_ends d [] (d', true) later h all ends = (rw h, rw h)
  wait_while_ends d [] (d', false) later h all ends = (rw h, rw (h, ended later))
    where
      ended : (later : List (D × Bool)) → wait_while d' later ≡ some ((condition d').1, false)
      ended [] = rw ends
      ended (w ∷ ws) = rw ends
  wait_while_ends d ((d', true) ∷ ws) w later h all ends = cc
  wait_while_ends d ((d', false) ∷ ws) w later h all ends =
      let rest = wait_while_ends d' ws w later all.0 all.1 ends in (rw (h, rest.0), rw (h, rest.1))

  -- A result that is not a timeout comes from a condition that was false just before.
  pub wait_while_condition :
      (d : D) (waits : List (D × Bool)) (d' : D)
      → wait_while d waits ≡ some (d', false)
      → (e : D) × (condition e ≡ (false, d'))
  unfolding wait_while
  wait_while_condition d [] d' h = elim (Bool-cases (condition d).0) [
    | inl holds ↦ cc
    | inr fails ↦ (d, ground arith)
  ]
  wait_while_condition d ((e, timed_out) ∷ ws) d' h = elim (Bool-cases (condition d).0) [
    | inl holds ↦ elim (Bool-cases timed_out) [
      | inl late ↦ absurd (ground arith)
      | inr early ↦ wait_while_condition e ws d' (ground arith)
    ]
    | inr fails ↦ (d, ground arith)
  ]
