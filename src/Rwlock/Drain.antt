-- ===== src/Rwlock/Drain.antt =====
-- One list of an `RwLock` after the other is emptied and woken in `did_unlock_read` and
-- `did_unlock_write`, by a thread that runs alone.
use wasm_safe_thread.Base.{
  ℕ, ◌≡◌, refl, ap, ◌∙◌, Bool, true, false, List, [], ◌∷◌, ◌++◌, arith, elem, ◌||◌, ◌==◌,
  if◌then◌else◌, inl, inr, Bool-cases,
}
use wasm_safe_thread.Rwlock.State.{
  Mem, Lane, Pc, Choice, lane, set_lane, sync_read, async_read, sync_write, async_write, no_waiters,
  unlock, enter, wake, go, idle,
}
use wasm_safe_thread.Rwlock.Unlock.{after, wake_one, did_unlock}
use wasm_safe_thread.Rwlock.Machine.{turn}
use wasm_safe_thread.Rwlock.Solo.{solo, solo-append}

abbrev is_same : Lane → Lane → Bool
is_same sync_read sync_read = true
is_same async_read async_read = true
is_same sync_write sync_write = true
is_same async_write async_write = true
is_same _ _ = false

abbrev pub is_among : Lane → List Lane → Bool
is_among n [] = false
is_among n (l ∷ ls) = is_same n l || is_among n ls

abbrev first : {A : Type 0} → List Lane → Pc A
first [] = idle
first (l ∷ ls) = unlock (enter l)

-- The lists follow each other in the code.
abbrev pub InOrder : Type 0 → List Lane → Type 0
InOrder A [] = Unit {0}
InOrder A (l ∷ ls) = (◌≡◌ {A = Pc A} (after l) (first ls)) × InOrder A ls

module _ {A : Type 0} where
  abbrev pub wake_all : Lane → List ℕ → Mem A → Mem A
  wake_all l [] m = m
  wake_all l (k ∷ ks) m = wake_all l ks (wake_one l k m)

  -- The memory when a list has been woken.
  abbrev pub drain : Lane → Mem A → Mem A
  drain l m = wake_all l (lane l m).queue (set_lane l no_waiters m)

  abbrev turns : List ℕ → List (Choice A)
  turns [] = go ∷ []
  turns (x ∷ xs) = go ∷ turns xs

  -- Three turns for the list, one for each waiter, and one at the end of the loop.
  abbrev drain_turns : Lane → Mem A → List (Choice A)
  drain_turns l m = (go ∷ go ∷ go ∷ []) ++ turns (lane l m).queue

  -- What a waiter of a list waits for: its park token, or its continuation.
  abbrev pub is_awake : Lane → ℕ → Mem A → Bool
  is_awake sync_read k m = m.token k
  is_awake async_read k m = m.sent k
  is_awake sync_write k m = m.token k
  is_awake async_write k m = m.sent k

  -- No thread is in a closure of a list.
  abbrev pub ListsFree : Mem A → Type 0
  ListsFree m = (l : Lane) → (lane l m).locked ≡ false

  solo-wake :
      (t : ℕ) (l : Lane) (ks : List ℕ) (m : Mem A)
      → solo t (turns ks) (m, unlock (wake l ks)) ≡ (wake_all l ks m, after l)
  unfolding solo turn did_unlock
  solo-wake t l [] m = refl
  solo-wake t l (k ∷ ks) m = solo-wake t l ks (wake_one l k m)

  solo-take :
      (t : ℕ) (l : Lane) (m : Mem A)
      → (lane l m).locked ≡ false
      → solo t (go ∷ go ∷ go ∷ []) (m, unlock (enter l))
        ≡ (set_lane l no_waiters m, unlock (wake l (lane l m).queue))
  unfolding solo turn did_unlock
  solo-take t l m free = ground arith

  pub solo-drain :
      (t : ℕ) (l : Lane) (m : Mem A)
      → (lane l m).locked ≡ false
      → solo t (drain_turns l m) (m, unlock (enter l)) ≡ (drain l m, after l)
  solo-drain t l m free =
      solo-append t (go ∷ go ∷ go ∷ []) (turns (lane l m).queue) (m, unlock (enter l))
      ∙ ap (solo t (turns (lane l m).queue)) (solo-take t l m free)
      ∙ solo-wake t l (lane l m).queue (set_lane l no_waiters m)

  -- Waking changes neither the lock nor the lists.
  wake_all_lem :
      (l : Lane) (ks : List ℕ) (m : Mem A)
      → ((wake_all l ks m).data_lock ≡ m.data_lock)
        × ((wake_all l ks m).inner ≡ m.inner)
        × ((n : Lane) → lane n (wake_all l ks m) ≡ lane n m)
  wake_all_lem l [] m = (refl, refl, λ n. refl)
  wake_all_lem l (k ∷ ks) m =
      let (d, i, ls) = wake_all_lem l ks (wake_one l k m) in
      (d ∙ ground arith, i ∙ ground arith, λ n. ls n ∙ ground arith)

  stays_awake_all :
      (l n : Lane) (ks : List ℕ) (k : ℕ) (m : Mem A)
      → is_awake n k m ≡ true
      → is_awake n k (wake_all l ks m) ≡ true
  stays_awake_all l n [] k m e = e
  stays_awake_all l n (x ∷ ks) k m e = stays_awake_all l n ks k (wake_one l x m) (ground arith)

  woken_all :
      (l : Lane) (ks : List ℕ) (k : ℕ) (m : Mem A)
      → elem k ks ≡ true
      → is_awake l k (wake_all l ks m) ≡ true
  woken_all l [] k m e = cc
  woken_all l (x ∷ ks) k m e = elim (Bool-cases (k == x)) [
    | inl same_k ↦ stays_awake_all l l ks k (wake_one l x m) (ground arith)
    | inr other ↦ woken_all l ks k (wake_one l x m) (ground arith)
  ]

  pub drain_lock :
      (l : Lane) (m : Mem A) → ((drain l m).data_lock ≡ m.data_lock) × ((drain l m).inner ≡ m.inner)
  drain_lock l m =
      let (d, i, ls) = wake_all_lem l (lane l m).queue (set_lane l no_waiters m) in
      (d ∙ ground arith, i ∙ ground arith)

  lane-drain :
      (l n : Lane) (m : Mem A) → lane n (drain l m) ≡ (if is_same n l then no_waiters else lane n m)
  lane-drain l n m = (wake_all_lem l (lane l m).queue (set_lane l no_waiters m)).2 n ∙ ground arith

  pub drain-ListsFree : (l : Lane) (m : Mem A) → ListsFree m → ListsFree (drain l m)
  drain-ListsFree l m free n = ground (arith, lane-drain l n m, free n)

  stays_awake :
      (l n : Lane) (k : ℕ) (m : Mem A) → is_awake n k m ≡ true → is_awake n k (drain l m) ≡ true
  stays_awake l n k m e =
      stays_awake_all l n (lane l m).queue k (set_lane l no_waiters m) (ground arith)

  woken_same :
      (l n : Lane) (k : ℕ) (m : Mem A)
      → is_same n l ≡ true
      → elem k (lane n m).queue ≡ true
      → is_awake n k (drain l m) ≡ true
  woken_same sync_read sync_read k m e h = woken_all sync_read _ k _ h
  woken_same async_read async_read k m e h = woken_all async_read _ k _ h
  woken_same sync_write sync_write k m e h = woken_all sync_write _ k _ h
  woken_same async_write async_write k m e h = woken_all async_write _ k _ h
  woken_same l n k m e h = ground arith

  -- Several lists, in an order.
  abbrev pub drains : List Lane → Mem A → Mem A
  drains [] m = m
  drains (l ∷ ls) m = drains ls (drain l m)

  abbrev pub drains_turns : List Lane → Mem A → List (Choice A)
  drains_turns [] m = []
  drains_turns (l ∷ ls) m = drain_turns l m ++ drains_turns ls (drain l m)

  pub solo-drains :
      (t : ℕ) (ls : List Lane) (m : Mem A)
      → InOrder A ls
      → ListsFree m
      → solo t (drains_turns ls m) (m, first ls) ≡ (drains ls m, idle)
  unfolding solo
  solo-drains t [] m o free = refl
  solo-drains t (l ∷ ls) m (o, os) free =
      solo-append t (drain_turns l m) (drains_turns ls (drain l m)) (m, unlock (enter l))
      ∙ ap (solo t (drains_turns ls (drain l m))) (solo-drain t l m (free l))
      ∙ ap (λ p. solo t (drains_turns ls (drain l m)) (drain l m, p)) o
      ∙ solo-drains t ls (drain l m) os (drain-ListsFree l m free)

  pub drains_lem :
      (ls : List Lane) (m : Mem A)
      → ListsFree m
      → ((drains ls m).data_lock ≡ m.data_lock)
        × ((drains ls m).inner ≡ m.inner)
        × ListsFree (drains ls m)
  drains_lem [] m free = (refl, refl, free)
  drains_lem (l ∷ ls) m free =
      let (d, i, f) = drains_lem ls (drain l m) (drain-ListsFree l m free) in
      let here = drain_lock l m in (d ∙ here.0, i ∙ here.1, f)

  stays_awake_after :
      (ls : List Lane) (n : Lane) (k : ℕ) (m : Mem A)
      → is_awake n k m ≡ true
      → is_awake n k (drains ls m) ≡ true
  stays_awake_after [] n k m e = e
  stays_awake_after (l ∷ ls) n k m e = stays_awake_after ls n k (drain l m) (stays_awake l n k m e)

  -- Every waiter of one of the lists is woken.
  pub drains_wake :
      (ls : List Lane) (n : Lane) (k : ℕ) (m : Mem A)
      → is_among n ls ≡ true
      → elem k (lane n m).queue ≡ true
      → is_awake n k (drains ls m) ≡ true
  drains_wake [] n k m a e = cc
  drains_wake (l ∷ ls) n k m a e = elim (Bool-cases (is_same n l)) [
    | inl same_lane ↦ stays_awake_after ls n k (drain l m) (woken_same l n k m same_lane e)
    | inr other ↦ drains_wake ls n k (drain l m) (ground arith) (ground (arith, lane-drain l n m))
  ]
