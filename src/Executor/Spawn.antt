-- ===== src/Executor/Spawn.antt =====
-- `spawn` of src/test_executor.rs: a future is polled until it is ready. A future is its `poll` on a
-- state, with `none` for `Poll::Pending`; the waker does nothing, so it has no part in it.
use wasm_safe_thread.Base.{
  ℕ, zero, suc, ◌≡◌, ap, ◌∙◌, Bool, true, false, Option, none, some, ltb, if◌then◌else◌, arith,
}

module _ {S T : Type 0} (poll : S → S × Option T) where
  abbrev pub ready_or : Option T → Option T → Option T
  ready_or (some v) rest = some v
  ready_or none rest = rest

  -- The loop, for `fuel` polls: `none` is a loop that still goes on.
  unfoldable pub spawn : ℕ → S → Option T
  spawn zero s = none
  spawn (suc fuel) s = let r = poll s in let rest = spawn fuel r.0 in ready_or r.1 rest

  abbrev pub after : ℕ → S → S
  after zero s = s
  after (suc n) s = after n (poll s).0

  -- The first `n` polls are pending.
  abbrev pub IsPending : ℕ → S → Type 0
  IsPending zero s = Unit {0}
  IsPending (suc n) s = ((poll s).1 ≡ none) × IsPending n (poll s).0

  -- When a future is pending for `n` polls and ready with `v` at the next, `spawn` returns `v`, at
  -- that poll and at no earlier one: more than `n` polls are enough, and fewer are not.
  pub spawn_returns_first_ready :
      (n fuel : ℕ) (s : S) (v : T)
      → IsPending n s
      → (poll (after n s)).1 ≡ some v
      → spawn fuel s ≡ (if ltb n fuel then some v else none)
  unfolding spawn
  spawn_returns_first_ready n zero s v p r = ground arith
  spawn_returns_first_ready zero (suc fuel) s v p r = rw r (ground arith)
  spawn_returns_first_ready (suc n) (suc fuel) s v (p, ps) r =
      ap (λ x. ready_or x (spawn fuel (poll s).0)) p
      ∙ spawn_returns_first_ready n fuel (poll s).0 v ps r
      ∙ ground arith

-- `YieldOnce::poll`, on `yielded`.
unfoldable pub yield_once : Bool → Bool × Option (Unit {0})
yield_once true = (true, some tt)
yield_once false = (true, none)

module _ {T : Type 0} (v : T) where
  -- An `async` block that awaits `yield_to_event_loop_async` some times, and gives `v`: how many
  -- awaits are left, and the future of the one under way. A poll goes on from a ready await to the
  -- next, which is pending.
  abbrev next_await : ℕ → (ℕ × Bool) × Option T
  next_await zero = ((zero, false), some v)
  next_await (suc k) = ((suc k, (yield_once false).0), none)

  abbrev on_ready : ℕ → Bool × Option (Unit {0}) → (ℕ × Bool) × Option T
  on_ready k (y, some _) = next_await k
  on_ready k (y, none) = ((suc k, y), none)

  unfoldable pub poll_yields : ℕ × Bool → (ℕ × Bool) × Option T
  unfolding yield_once
  poll_yields (zero, y) = ((zero, y), some v)
  poll_yields (suc k, y) = on_ready k (yield_once y)

  under_way :
      (k : ℕ) (fuel : ℕ)
      → spawn poll_yields fuel (suc k, true) ≡ (if ltb k fuel then some v else none)
  unfolding spawn poll_yields yield_once
  under_way k zero = ground arith
  under_way zero (suc fuel) = ground arith
  under_way (suc k) (suc fuel) = under_way k fuel ∙ ground arith

  -- An async block that yields `k` times is polled `k + 1` times.
  spawn_yields :
      (k fuel : ℕ) → spawn poll_yields fuel (k, false) ≡ (if ltb k fuel then some v else none)
  unfolding spawn poll_yields yield_once
  spawn_yields k zero = ground arith
  spawn_yields zero (suc fuel) = ground arith
  spawn_yields (suc k) (suc fuel) = under_way k fuel ∙ ground arith
