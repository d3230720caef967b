-- ===== src/Interleave/SharedLock.antt =====
-- What a read-write lock promises: readers together, or one writer alone, who alone changes the data.
use wasm_safe_thread.Interleave.Lock.{data_after}
use wasm_safe_thread.Base.{
  ℕ, ◌≡◌, refl, Bool, true, false, List, [], ◌∷◌, Option, none, some, update, arith,
}

-- Who reads, who writes, and the data.
pub record View (A : Type 0) : Type 0 where
  pub reading : ℕ → Bool
  pub writing : ℕ → Bool
  pub value : A

abbrev pub Nobody : (ℕ → Bool) → Type 0
Nobody f = (u : ℕ) → f u ≡ false

abbrev pub IsSame : (ℕ → Bool) → (ℕ → Bool) → Type 0
IsSame f g = (u : ℕ) → g u ≡ f u

-- Thread `t` alone changes, to `b`.
abbrev pub Puts : ℕ → Bool → (ℕ → Bool) → (ℕ → Bool) → Type 0
Puts t b f g = (u : ℕ) → g u ≡ update f t b u

-- What thread `t` may do.
pub data Step {A : Type 0} (t : ℕ) (s s' : View A) : Type 0 where
  rest :
      IsSame s.reading s'.reading → IsSame s.writing s'.writing → s'.value ≡ s.value → Step t s s'
  lock_read :
      Nobody s.writing
      → s.reading t ≡ false
      → Puts t true s.reading s'.reading
      → IsSame s.writing s'.writing
      → s'.value ≡ s.value
      → Step t s s'
  unlock_read :
      s.reading t ≡ true
      → Puts t false s.reading s'.reading
      → IsSame s.writing s'.writing
      → s'.value ≡ s.value
      → Step t s s'
  lock_write :
      Nobody s.reading
      → Nobody s.writing
      → IsSame s.reading s'.reading
      → Puts t true s.writing s'.writing
      → s'.value ≡ s.value
      → Step t s s'
  unlock_write :
      s.writing t ≡ true
      → IsSame s.reading s'.reading
      → Puts t false s.writing s'.writing
      → s'.value ≡ s.value
      → Step t s s'
  modify :
      (f : A → A)
      → s.writing t ≡ true
      → IsSame s.reading s'.reading
      → IsSame s.writing s'.writing
      → s'.value ≡ f s.value
      → Step t s s'

-- One step for each thread of a schedule, in order.
abbrev pub Follows : {A : Type 0} → List ℕ → View A → View A → Type 0
Follows [] s s' = IsSame s.reading s'.reading × IsSame s.writing s'.writing × (s'.value ≡ s.value)
Follows {A} (t ∷ ts) s s'' = (s' : View A) × Step t s s' × Follows ts s' s''

-- Nobody has the lock.
abbrev pub unowned : {A : Type 0} → A → View A
unowned a = record { reading = λ t. false; writing = λ t. false; value = a }

-- How a turn of `t` changes whether it reads (`b`, then `b'`) and writes (`w`, then `w'`), with the
-- closure that it may run on the data.
pub record Turned {A : Type 0} (s s' : View A) (t : ℕ) (b b' w w' : Bool) (f : Option (A → A))
    : Type 0 where
  pub was : (s.reading t ≡ b) × (s.writing t ≡ w)
  pub reads_now : Puts t b' s.reading s'.reading
  pub writes_now : Puts t w' s.writing s'.writing
  pub apart : b ≡ true → w ≡ true → ⊥
  pub apart_now : b' ≡ true → w' ≡ true → ⊥
  pub downgrade : w ≡ true → w' ≡ false → b' ≡ false
  pub upgrade : b ≡ true → b' ≡ false → w' ≡ false
  pub free_to_read : b ≡ false → b' ≡ true → Nobody s.writing
  pub free_to_write : w ≡ false → w' ≡ true → Nobody s.reading × Nobody s.writing
  pub stored : s'.value ≡ data_after w w' f s.value

kept : (f g : ℕ → Bool) (t : ℕ) (b : Bool) → f t ≡ b → Puts t b f g → IsSame f g
kept f g t b e p u = ground (arith, p u)

module _ {A : Type 0} where
  -- Such a turn is a step.
  pub Turned-Step :
      (s s' : View A) (t : ℕ) (b b' w w' : Bool) (f : Option (A → A))
      → Turned s s' t b b' w w' f
      → Step t s s'
  Turned-Step s s' t false false false false f v =
      rest (kept _ _ t false v.was.0 v.reads_now) (kept _ _ t false v.was.1 v.writes_now) v.stored
  Turned-Step s s' t true true false false f v =
      rest (kept _ _ t true v.was.0 v.reads_now) (kept _ _ t false v.was.1 v.writes_now) v.stored
  Turned-Step s s' t false true false false f v =
      lock_read (v.free_to_read refl refl) v.was.0 v.reads_now
        (kept _ _ t false v.was.1 v.writes_now) v.stored
  Turned-Step s s' t true false false false f v =
      unlock_read v.was.0 v.reads_now (kept _ _ t false v.was.1 v.writes_now) v.stored
  Turned-Step s s' t false false false true f v =
      lock_write (v.free_to_write refl refl).0 (v.free_to_write refl refl).1
        (kept _ _ t false v.was.0 v.reads_now) v.writes_now v.stored
  Turned-Step s s' t false false true false f v =
      unlock_write v.was.1 (kept _ _ t false v.was.0 v.reads_now) v.writes_now v.stored
  Turned-Step s s' t false false true true none v =
      rest (kept _ _ t false v.was.0 v.reads_now) (kept _ _ t true v.was.1 v.writes_now) v.stored
  Turned-Step s s' t false false true true (some f) v =
      modify f v.was.1 (kept _ _ t false v.was.0 v.reads_now) (kept _ _ t true v.was.1 v.writes_now)
        v.stored
  Turned-Step s s' t true b' true w' f v = absurd (v.apart refl refl)
  Turned-Step s s' t false true true true f v = absurd (v.apart_now refl refl)
  Turned-Step s s' t b true false true f v = absurd (v.apart_now refl refl)
  Turned-Step s s' t false true true false f v = cc (v.downgrade refl refl)
  Turned-Step s s' t true false false true f v = cc (v.upgrade refl refl)
