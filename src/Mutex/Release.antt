-- ===== src/Mutex/Release.antt =====
-- The drop of a mutex guard, run to its end: whom it wakes, and that it ends.
use wasm_safe_thread.Base.{
  ℕ, ◌≡◌, refl, ap, ◌∙◌, Bool, true, false, List, [], ◌∷◌, ◌++◌, arith, elem, update, ◌||◌,
}
use wasm_safe_thread.Mutex.State.{
  Mem, Pc, Choice, BlockPc, UnlockPc, idle, block, held, unlock, go, drop,
}
use wasm_safe_thread.Mutex.Unlock.{did_unlock, drop_guard}
use wasm_safe_thread.Mutex.Machine.{System, turn, run, with_guard}
use wasm_safe_thread.Mutex.Solo.{solo, solo-append, only, run-only}
use wasm_safe_thread.Mutex.Progress.{ListsFree, woken_lock}

-- What `did_unlock` does to the tokens of the threads, and to the continuations, that it took.
pub wake_all : List ℕ → (ℕ → Bool) → ℕ → Bool
wake_all [] f = f
wake_all (x ∷ xs) f = wake_all xs (update f x true)

pub wake_all_lem : (xs : List ℕ) (f : ℕ → Bool) (k : ℕ) → wake_all xs f k ≡ (elem k xs || f k)
unfolding wake_all
wake_all_lem [] f k = refl
wake_all_lem (x ∷ xs) f k = ground (arith, wake_all_lem xs (update f x true) k)

module _ {A : Type 0} where
  abbrev pub turns : List ℕ → List (Choice A)
  turns [] = go ∷ []
  turns (x ∷ xs) = go ∷ turns xs

  solo-unpark :
      (t : ℕ) (xs : List ℕ) (m : Mem A)
      → solo t (turns xs) (m, unlock (UnlockPc.unpark xs))
        ≡ (record m { token = wake_all xs m.token }, unlock UnlockPc.enter_async)
  unfolding solo turn did_unlock wake_all
  solo-unpark t [] m = refl
  solo-unpark t (x ∷ xs) m = solo-unpark t xs (record m { token = update m.token x true })

  solo-send :
      (t : ℕ) (xs : List ℕ) (m : Mem A)
      → solo t (turns xs) (m, unlock (UnlockPc.send xs))
        ≡ (record m { sent = wake_all xs m.sent }, idle)
  unfolding solo turn did_unlock wake_all
  solo-send t [] m = refl
  solo-send t (x ∷ xs) m = solo-send t xs (record m { sent = update m.sent x true })

  -- The turns of a drop: the store, three for the list of threads and one for each, three for the
  -- list of senders and one for each, and one at the end of each loop.
  abbrev pub drop_turns : Mem A → List (Choice A)
  drop_turns m =
      (drop ∷ go ∷ go ∷ go ∷ [])
      ++ (turns m.waiting_sync_threads ++ ((go ∷ go ∷ go ∷ []) ++ turns m.waiting_async_threads))

  took_threads :
      (m : Mem A) (t : ℕ)
      → ListsFree m
      → solo t (drop ∷ go ∷ go ∷ go ∷ []) (m, held) ≡ (
        record m { data_lock = false; sync_locked = false; waiting_sync_threads = [] },
        unlock (UnlockPc.unpark m.waiting_sync_threads),
      )
  unfolding solo turn did_unlock with_guard drop_guard
  took_threads m t lists = ground arith

  took_senders :
      (m : Mem A) (t : ℕ)
      → m.async_locked ≡ false
      → solo t (go ∷ go ∷ go ∷ []) (m, unlock UnlockPc.enter_async) ≡ (
        record m { async_locked = false; waiting_async_threads = [] },
        unlock (UnlockPc.send m.waiting_async_threads),
      )
  unfolding solo turn did_unlock
  took_senders m t free = ground arith

  pub solo-drop :
      (m : Mem A) (t : ℕ)
      → ListsFree m
      → solo t (drop_turns m) (m, held) ≡ (
        record m {
          data_lock = false;
          sync_locked = false;
          waiting_sync_threads = [];
          async_locked = false;
          waiting_async_threads = [];
          token = wake_all m.waiting_sync_threads m.token;
          sent = wake_all m.waiting_async_threads m.sent;
        },
        idle,
      )
  solo-drop m t lists =
      solo-append t (drop ∷ go ∷ go ∷ go ∷ []) _ (m, held)
      ∙ ap (solo t _) (took_threads m t lists)
      ∙ solo-append t (turns m.waiting_sync_threads) _ _
      ∙ ap (solo t _) (solo-unpark t m.waiting_sync_threads _)
      ∙ solo-append t (go ∷ go ∷ go ∷ []) _ _
      ∙ ap (solo t _) (took_senders _ t lists.1)
      ∙ solo-send t m.waiting_async_threads _

  -- The drop of a guard ends: it unlocks the mutex, empties both lists, gives a token to every
  -- thread and sends every continuation that was entered, takes no token or continuation back, and
  -- leaves the data alone.
  pub drop_wakes_all :
      (m : Mem A) (t : ℕ)
      → ListsFree m
      → let r = solo t (drop_turns m) (m, held) in
        (r.1 ≡ idle)
        × (r.0.data_lock ≡ false)
        × (r.0.waiting_sync_threads ≡ [])
        × (r.0.waiting_async_threads ≡ [])
        × ((k : ℕ) → r.0.token k ≡ (elem k m.waiting_sync_threads || m.token k))
        × ((k : ℕ) → r.0.sent k ≡ (elem k m.waiting_async_threads || m.sent k))
        × (r.0.inner ≡ m.inner)
  drop_wakes_all m t lists = rw (solo-drop m t lists) (
    refl,
    refl,
    refl,
    refl,
    λ k. wake_all_lem m.waiting_sync_threads m.token k,
    λ k. wake_all_lem m.waiting_async_threads m.sent k,
    refl,
  )

  abbrev five : List (Choice A)
  five = go ∷ go ∷ go ∷ go ∷ go ∷ []

  solo_woken :
      (t : ℕ) (timed : Bool) (m : Mem A) (p : Pc A)
      → p ≡ block timed BlockPc.park
      → m.data_lock ≡ false
      → ListsFree m
      → m.token t ≡ true
      → (solo t five (m, p)).1 ≡ held
  solo_woken t timed m p e free lists awake = rw (e, woken_lock m t timed free lists awake) refl

  run_woken :
      (s : System A) (t : ℕ) (timed : Bool)
      → s.pc t ≡ block timed BlockPc.park
      → s.mem.data_lock ≡ false
      → ListsFree s.mem
      → s.mem.token t ≡ true
      → (run s (only t five)).pc t ≡ held
  run_woken s t timed e free lists awake =
      ground (arith, (run-only t five s).1 t, solo_woken t timed s.mem (s.pc t) e free lists awake)

  mem_dropped :
      (s : System A) (u : ℕ)
      → ListsFree s.mem
      → s.pc u ≡ held
      → (run s (only u (drop_turns s.mem))).mem ≡ (solo u (drop_turns s.mem) (s.mem, held)).0
  mem_dropped s u lists owner = (run-only u (drop_turns s.mem) s).0 ∙ rw owner

  -- The hand-over. When `t` is parked and entered in the list, and the owner `u` of the mutex drops
  -- its guard, `t` has the guard five turns after `u` is done, while nobody else takes a turn.
  pub drop_hands_over :
      (s : System A) (t u : ℕ) (timed : Bool)
      → ListsFree s.mem
      → s.pc u ≡ held
      → s.pc t ≡ block timed BlockPc.park
      → elem t s.mem.waiting_sync_threads ≡ true
      → let s' = run s (only u (drop_turns s.mem)) in
        (run s' (only t (go ∷ go ∷ go ∷ go ∷ go ∷ []))).pc t ≡ held
  drop_hands_over s t u timed lists owner asleep entered =
      let r = drop_wakes_all s.mem u lists in
      let e = mem_dropped s u lists owner in
      run_woken _ t timed (ground (arith, (run-only u (drop_turns s.mem) s).1 t)) (rw e r.1)
        (rw (e, solo-drop s.mem u lists) (refl, refl)) (rw e (r.4 t ∙ rw entered))
