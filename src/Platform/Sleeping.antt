-- ===== src/Platform/Sleeping.antt =====
-- `sleep` of src/wasm/thread_api.rs and `sleep_sync_ms` of src/wasm/wasm_utils.rs: how long a thread
-- sleeps, and whether it burns the processor. Times are in nanoseconds.
use wasm_safe_thread.Base.{
  ℕ, ◌≡◌, ◌≤◌, ◌+◌, ◌*◌, ◌/◌, ◌-◌, refl, ap, ◌∙◌, Bool, true, false, not, ◌&&◌, List, [], ◌∷◌, ◌++◌,
  Option, none, some, if◌then◌else◌, ◌==◌, ltb, arith, Bool-cases, inl, inr,
}
use wasm_safe_thread.Parking.Machine.{Event, run, init}
use wasm_safe_thread.Platform.Globals.{Globals, may_wait, atomics_wait_supported}
use wasm_safe_thread.Platform.Blocking.{panics, lone_park, feature_test_predicts_park}

abbrev pub millisecond : ℕ
millisecond = 1000000

-- How a sleep went, with the time that it took: it returned before it did anything; it waited; or it
-- read the clock until it was late enough.
pub data Slept : Type 0 where
  at_once : Slept
  waited burnt : (took : ℕ) → Slept

-- `while (now() < end) {}`, over what the clock shows.
unfoldable pub busy_wait : (start until : ℕ) → List ℕ → Option Slept
busy_wait start until [] = none
busy_wait start until (now ∷ clock) =
    let later = busy_wait start until clock in
    if ltb now until then later else some (burnt (now - start))

abbrev fallback : (ms : ℕ) → List ℕ → Option Slept
fallback ms [] = none
fallback ms (start ∷ clock) = busy_wait start (start + ms * millisecond) clock

-- `wait` is how long `Atomics.wait` with a timeout takes, on a word that nobody notifies.
unfoldable pub sleep_sync_ms : Globals → (wait : ℕ → ℕ) → (ms : ℕ) → List ℕ → Option Slept
unfolding busy_wait
sleep_sync_ms g wait ms clock =
    if ms == 0
    then some at_once
    else if g.shared_array_buffer && may_wait g
    then some (waited (wait (ms * millisecond)))
    else fallback ms clock

-- `Duration::as_millis` rounds down.
unfoldable pub sleep : Globals → (wait : ℕ → ℕ) → (dur : ℕ) → List ℕ → Option Slept
unfolding sleep_sync_ms
sleep g wait dur clock = sleep_sync_ms g wait (dur / millisecond) clock

abbrev pub time_of : Slept → ℕ
time_of at_once = 0
time_of (waited took) = took
time_of (burnt took) = took

abbrev pub is_burnt : Slept → Bool
is_burnt (burnt took) = true
is_burnt _ = false

abbrev pub is_at_once : Slept → Bool
is_at_once at_once = true
is_at_once _ = false

-- Once the clock shows that it is late enough, the loop has ended, and not before.
busy_wait_ends :
    (start until late : ℕ) (before after : List ℕ)
    → until ≤ late
    → (took : ℕ) × (busy_wait start until (before ++ late ∷ after) ≡ some (burnt took))
      × (until ≤ start + took)
unfolding busy_wait
busy_wait_ends start until late [] after k = (late - start, ground arith, omega arith)
busy_wait_ends start until late (now ∷ before) after k = elim (Bool-cases (ltb now until)) [
  | inl early ↦ rw early (busy_wait_ends start until late before after k)
  | inr done ↦ (now - start, rw done refl, ground arith)
]

-- What a sleep of `dur` does with the milliseconds `ms` that it has.
record Sleeps (supported : Bool) (dur : ℕ) (r : Option Slept) : Type 0 where
  slept : Slept
  returns : r ≡ some slept
  enough : dur / millisecond * millisecond ≤ time_of slept
  burns : is_burnt slept ≡ (not (ltb dur millisecond) && not supported)
  skips : is_at_once slept ≡ ltb dur millisecond

sleep_lem :
    (g : Globals) (wait : ℕ → ℕ) (dur start late : ℕ) (before after : List ℕ)
    → ((ns : ℕ) → ns ≤ wait ns)
    → start + dur ≤ late
    → Sleeps
        (g.shared_array_buffer && may_wait g)
        dur
        (sleep g wait dur (start ∷ before ++ late ∷ after))
unfolding sleep sleep_sync_ms
sleep_lem g wait dur start late before after long k = elim (Bool-cases (dur / millisecond == 0)) [
  | inl short ↦ record {
    slept = at_once;
    returns = rw short refl;
    enough = ground arith;
    burns = ground arith;
    skips = ground arith;
  }
  | inr longer ↦ elim (Bool-cases (g.shared_array_buffer && may_wait g)) [
    | inl w ↦ record {
      slept = waited (wait (dur / millisecond * millisecond));
      returns = rw (longer, w) refl;
      enough = long (dur / millisecond * millisecond);
      burns = ground arith;
      skips = ground arith;
    }
    | inr n ↦
        let (took, q, e) =
          busy_wait_ends start (start + dur / millisecond * millisecond) late before after
            (omega arith) in
        record {
          slept = burnt took;
          returns = rw (longer, n) q;
          enough = omega arith;
          burns = ground arith;
          skips = ground arith;
        }
  ]
]

supported_lem : (g : Globals) → (g.shared_array_buffer && may_wait g) ≡ atomics_wait_supported g
unfolding atomics_wait_supported
supported_lem g = ground arith

-- What the feature test says about the calls that block, in a context with shared memory. Where it
-- answers true, no schedule of parks, timed parks and unparks ends in the panic of a park that may
-- not wait, and where it answers false, a park without a token panics. A sleep returns on both, if
-- the clock goes on until it is over and a timed wait takes at least its time: it takes at least the
-- whole milliseconds of its duration; it burns the processor exactly where the test answers false and
-- it has a millisecond; and exactly a sleep of less than a millisecond returns at once.
pub feature_test_predicts_blocking :
    (g : Globals) (es : List Event) (wait : ℕ → ℕ) (dur start late : ℕ) (before after : List ℕ)
    → g.shared_array_buffer ≡ true
    → ((ns : ℕ) → ns ≤ wait ns)
    → start + dur ≤ late
    → ((atomics_wait_supported g && panics (run (init (may_wait g)) es).owner) ≡ false)
      × (panics (run (init (may_wait g)) lone_park).owner ≡ not (atomics_wait_supported g))
      × ((r : Slept) × (sleep g wait dur (start ∷ before ++ late ∷ after) ≡ some r)
          × (dur / millisecond * millisecond ≤ time_of r)
          × (is_burnt r ≡ (not (ltb dur millisecond) && not (atomics_wait_supported g)))
          × (is_at_once r ≡ ltb dur millisecond))
feature_test_predicts_blocking g es wait dur start late before after e long k =
    let (never, lone) = feature_test_predicts_park g es e in
    let r = sleep_lem g wait dur start late before after long k in
    let burns : is_burnt r.slept ≡ (not (ltb dur millisecond) && not (atomics_wait_supported g)) =
      r.burns ∙ ap (λ b. not (ltb dur millisecond) && not b) (supported_lem g) in
    (never, lone, (r.slept, r.returns, r.enough, burns, r.skips))
