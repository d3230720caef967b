-- ===== src/Interleave/Lock.antt =====
-- What a lock promises: one owner at a time, who alone changes the data. The mutex of src/mutex.rs and
-- the lock that the other components take are compared with it.
use wasm_safe_thread.Base.{
  ℕ, ◌≡◌, refl, Bool, true, false, List, [], ◌∷◌, ◌++◌, Option, none, some, if◌then◌else◌, ◌==◌,
  update, arith, Bool-cases,
}
use wasm_safe_thread.Interleave.Exclusion.{Shift}

pub data Op (A : Type 0) : Type 0 where
  acquire release : Op A
  modify : (A → A) → Op A

-- The owner, and the data.
abbrev pub Lock : Type 0 → Type 0
Lock A = Option ℕ × A

module _ {A : Type 0} where
  abbrev when_owner : Option ℕ → ℕ → Lock A → Option (Lock A)
  when_owner none t s = none
  when_owner (some u) t s = if u == t then some s else none

  -- An operation by `t`: `none` is one that a lock does not allow.
  abbrev pub apply : Op A → ℕ → Lock A → Option (Lock A)
  apply acquire t (none, d) = some (some t, d)
  apply acquire t (some u, d) = none
  apply release t (o, d) = when_owner o t (none, d)
  apply (modify f) t (o, d) = when_owner o t (o, f d)

  abbrev pub apply_if : Op A → ℕ → Option (Lock A) → Option (Lock A)
  apply_if op t none = none
  apply_if op t (some s) = apply op t s

  unfoldable pub apply_all : List (ℕ × Op A) → Option (Lock A) → Option (Lock A)
  apply_all [] s = s
  apply_all ((t, op) ∷ ops) s = apply_all ops (apply_if op t s)

  pub apply_all-append :
      (xs ys : List (ℕ × Op A)) (s : Option (Lock A))
      → apply_all (xs ++ ys) s ≡ apply_all ys (apply_all xs s)
  unfolding apply_all
  apply_all-append [] ys s = refl
  apply_all-append ((t, op) ∷ xs) ys s = apply_all-append xs ys (apply_if op t s)

  -- What a turn of `t` is, when it had the lock or not, has it or not, and may write to the data.
  abbrev pub op_of : ℕ → (before now : Bool) → Option (A → A) → List (ℕ × Op A)
  op_of t false true w = (t, acquire) ∷ []
  op_of t true false w = (t, release) ∷ []
  op_of t false false w = []
  op_of t true true none = []
  op_of t true true (some f) = (t, modify f) ∷ []

  abbrev pub data_after : (before now : Bool) → Option (A → A) → A → A
  data_after true true (some f) d = f d
  data_after before now w d = d

abbrev pub owner_of : Option ℕ → ℕ → (before now : Bool) → Option ℕ
owner_of o t before true = some t
owner_of o t true false = none
owner_of o t false false = o

module _ {Pc : Type 0} (holds : Pc → Bool) where
  -- The owner of the flag `l` among the threads: somebody owns it exactly when it is set.
  abbrev pub IsOwner : Option ℕ → Bool → (ℕ → Pc) → Type 0
  IsOwner none l pc = (l ≡ false) × ((u : ℕ) → holds (pc u) ≡ false)
  IsOwner (some t) l pc =
      (l ≡ true) × (holds (pc t) ≡ true) × ((u : ℕ) → holds (pc u) ≡ true → u ≡ t)

  turned-IsOwner :
      (o : Option ℕ) (l l' : Bool) (pc : ℕ → Pc) (t : ℕ) (p' : Pc) (b b' : Bool)
      → holds (pc t) ≡ b
      → holds p' ≡ b'
      → Shift l b l' b'
      → (b ≡ true → b' ≡ false → l' ≡ false)
      → IsOwner o l pc
      → IsOwner (owner_of o t b b') l' (update pc t p')
  turned-IsOwner none l l' pc t p' true b' e e' s lose (free, nobody) = ground (arith, nobody t)
  turned-IsOwner none l l' pc t p' false true e e' s lose (free, nobody) =
      (ground (arith, s.gain refl refl), ground arith, λ u h. ground (arith, nobody u))
  turned-IsOwner none l l' pc t p' false false e e' s lose (free, nobody) =
      (ground (arith, s.stay refl refl), λ u. ground (arith, nobody u))
  turned-IsOwner (some u) l l' pc t p' true true e e' s lose (set, own, one) =
      (ground (arith, s.keep refl refl), ground arith, λ w h. ground (arith, one w, one t))
  turned-IsOwner (some u) l l' pc t p' true false e e' s lose (set, own, one) =
      (lose refl refl, λ w. ground (arith, one w, one t, Bool-cases (holds (pc w))))
  turned-IsOwner (some u) l l' pc t p' false true e e' s lose (set, own, one) =
      ground (arith, s.gain refl refl)
  turned-IsOwner (some u) l l' pc t p' false false e e' s lose (set, own, one) =
      (ground (arith, s.stay refl refl), ground arith, λ w h. ground (arith, one w))

  pub Shift-IsOwner :
      (o : Option ℕ) (l l' : Bool) (pc : ℕ → Pc) (t : ℕ) (p' : Pc)
      → Shift l (holds (pc t)) l' (holds p')
      → (holds (pc t) ≡ true → holds p' ≡ false → l' ≡ false)
      → IsOwner o l pc
      → IsOwner (owner_of o t (holds (pc t)) (holds p')) l' (update pc t p')
  Shift-IsOwner o l l' pc t p' s lose v =
      turned-IsOwner o l l' pc t p' (holds (pc t)) (holds p') refl refl s lose v

  allowed :
      {A : Type 0} (o : Option ℕ) (d : A) (l l' : Bool) (pc : ℕ → Pc) (t : ℕ) (b b' : Bool)
      (w : Option (A → A))
      → holds (pc t) ≡ b
      → Shift l b l' b'
      → IsOwner o l pc
      → apply_all (op_of t b b' w) (some (o, d)) ≡ some (owner_of o t b b', data_after b b' w d)
  unfolding apply_all
  allowed none d l l' pc t true b' w e s (free, nobody) = ground (arith, nobody t)
  allowed none d l l' pc t false true w e s v = refl
  allowed none d l l' pc t false false w e s v = refl
  allowed (some u) d l l' pc t true true none e s (set, own, one) = ground (arith, one t)
  allowed (some u) d l l' pc t true true (some f) e s (set, own, one) = ground (arith, one t)
  allowed (some u) d l l' pc t true false w e s (set, own, one) = ground (arith, one t)
  allowed (some u) d l l' pc t false true w e s (set, own, one) = ground (arith, s.gain refl refl)
  allowed (some u) d l l' pc t false false w e s v = refl

  -- What a turn does is allowed.
  pub turn_allowed :
      {A : Type 0} (o : Option ℕ) (d : A) (l l' : Bool) (pc : ℕ → Pc) (t : ℕ) (b' : Bool)
      (w : Option (A → A))
      → Shift l (holds (pc t)) l' b'
      → IsOwner o l pc
      → apply_all (op_of t (holds (pc t)) b' w) (some (o, d))
        ≡ some (owner_of o t (holds (pc t)) b', data_after (holds (pc t)) b' w d)
  turn_allowed o d l l' pc t b' w s v = allowed o d l l' pc t (holds (pc t)) b' w refl s v
