-- ===== src/Hooks/Names.antt =====
-- The registry as a map from names to hooks, in the order of first registration.
use Prim.Native.String.{String}
use text.Mathlib.Text.{◌==◌ as str_eq}
use text.Mathlib.TextEquality.{eq_iff}
use wasm_safe_thread.Base.{
  ◌≡◌, refl, inl, inr, Bool, true, false, List, [], ◌∷◌, Option, none, some, push, position, arith,
  if◌then◌else◌, Option-cases, ◌||◌,
}
use wasm_safe_thread.Hooks.Registry.{
  Registry, names, find, register_spawn_hook, remove_spawn_hook, clear_spawn_hooks,
}

abbrev pub mem : String → List String → Bool
mem n [] = false
mem n (x ∷ xs) = str_eq x n || mem n xs

-- No name twice.
abbrev pub Distinct : List String → Type 0
Distinct [] = Unit {0}
Distinct (x ∷ xs) = (mem x xs ≡ false) × Distinct xs

-- The list without the first occurrence of a name.
abbrev pub without : String → List String → List String
without n [] = []
without n (x ∷ xs) = if str_eq x n then xs else x ∷ without n xs

mem-push : (m n : String) (xs : List String) → mem m (push xs n) ≡ (mem m xs || str_eq n m)
mem-push m n [] = ground arith
mem-push m n (x ∷ xs) = ground (arith, mem-push m n xs)

Distinct-push :
    (n : String) (xs : List String) → Distinct xs → mem n xs ≡ false → Distinct (push xs n)
Distinct-push n [] d h = (refl, tt)
Distinct-push n (x ∷ xs) d h =
    ground (arith, mem-push x n xs, Distinct-push n xs, eq_iff x n, eq_iff n x)

mem-without : (m n : String) (xs : List String) → mem m xs ≡ false → mem m (without n xs) ≡ false
mem-without m n [] h = refl
mem-without m n (x ∷ xs) h = ground (arith, mem-without m n xs)

Distinct-without : (n : String) (xs : List String) → Distinct xs → Distinct (without n xs)
Distinct-without n [] d = tt
Distinct-without n (x ∷ xs) d = ground (arith, Distinct-without n xs, mem-without x n xs)

module _ {H : Type 0} where
  -- The hook that a name stands for.
  abbrev pub lookup : String → Registry H → Option H
  lookup n [] = none
  lookup n ((x, h) ∷ r) = if str_eq x n then some h else lookup n r

  -- The operations as recursions on the list.
  abbrev replace : String → H → Registry H → Registry H
  replace n h [] = (n, h) ∷ []
  replace n h ((x, g) ∷ r) = if str_eq x n then (n, h) ∷ r else (x, g) ∷ replace n h r

  register_lem : (n : String) (h : H) (r : Registry H) → register_spawn_hook n h r ≡ replace n h r
  unfolding register_spawn_hook position
  register_lem n h [] = refl
  register_lem n h ((x, g) ∷ r) = elim (Option-cases (find n r)) [
    | inl e ↦ ground (arith, e, register_lem n h r)
    | inr (i, e) ↦ ground (arith, e, register_lem n h r)
  ]

  abbrev drop : String → Registry H → Bool × Registry H
  drop n [] = (false, [])
  drop n ((x, g) ∷ r) = if str_eq x n then (true, r) else ((drop n r).0, (x, g) ∷ (drop n r).1)

  remove_lem : (n : String) (r : Registry H) → remove_spawn_hook n r ≡ drop n r
  unfolding remove_spawn_hook position
  remove_lem n [] = refl
  remove_lem n ((x, g) ∷ r) = elim (Option-cases (find n r)) [
    | inl e ↦ ground (arith, e, remove_lem n r)
    | inr (i, e) ↦ ground (arith, e, remove_lem n r)
  ]

  -- Registering a hook makes its name stand for it, and leaves what other names stand for.
  pub lookup-register :
      (n m : String) (h : H) (r : Registry H)
      → lookup m (register_spawn_hook n h r) ≡ (if str_eq n m then some h else lookup m r)
  lookup-register n m h r = rw (register_lem n h r) (go r)
    where
      go : (r : Registry H) → lookup m (replace n h r) ≡ (if str_eq n m then some h else lookup m r)
      go [] = refl
      go ((x, g) ∷ r) = ground (arith, eq_iff n m, eq_iff x n, eq_iff x m, go r)

  -- Registering keeps the order of the names: a new name goes to the end, a known one keeps its
  -- place.
  pub names-register :
      (n : String) (h : H) (r : Registry H)
      → names (register_spawn_hook n h r) ≡ (if mem n (names r) then names r else push (names r) n)
  names-register n h r = rw (register_lem n h r) (go r)
    where
      go :
          (r : Registry H)
          → names (replace n h r) ≡ (if mem n (names r) then names r else push (names r) n)
      go [] = refl
      go ((x, g) ∷ r) = ground (arith, eq_iff x n, go r)

  -- Removing a name answers whether it was there, and takes its first entry out.
  pub remove_names :
      (n : String) (r : Registry H)
      → ((remove_spawn_hook n r).0 ≡ mem n (names r))
        × (names (remove_spawn_hook n r).1 ≡ without n (names r))
  remove_names n r = rw (remove_lem n r) (go r)
    where
      go :
          (r : Registry H)
          → ((drop n r).0 ≡ mem n (names r)) × (names (drop n r).1 ≡ without n (names r))
      go [] = (refl, refl)
      go ((x, g) ∷ r) = ground (arith, (go r).0, (go r).1)

  -- Registering, removing and clearing keep the names distinct.
  pub names-Distinct :
      (n : String) (h : H) (r : Registry H)
      → Distinct (names r)
      → Distinct (names (register_spawn_hook n h r))
        × Distinct (names (remove_spawn_hook n r).1)
        × Distinct (names (clear_spawn_hooks r))
  unfolding clear_spawn_hooks
  names-Distinct n h r d = (
    rw (names-register n h r) (ground (arith, Distinct-push n (names r) d)),
    rw ((remove_names n r).1) (Distinct-without n (names r) d),
    tt,
  )

  -- In a registry whose names are distinct, a removed name stands for nothing, and every other name
  -- for what it did.
  pub lookup-remove :
      (n m : String) (r : Registry H)
      → Distinct (names r)
      → lookup m (remove_spawn_hook n r).1 ≡ (if str_eq n m then none else lookup m r)
  lookup-remove n m r d = rw (remove_lem n r) (go r d)
    where
      absent : (r : Registry H) → mem m (names r) ≡ false → lookup m r ≡ none
      absent [] h = refl
      absent ((x, g) ∷ r) h = ground (arith, absent r)

      go :
          (r : Registry H)
          → Distinct (names r)
          → lookup m (drop n r).1 ≡ (if str_eq n m then none else lookup m r)
      go [] d = ground arith
      go ((x, g) ∷ r) d = ground (arith, eq_iff n m, eq_iff x n, eq_iff x m, go r d.1, absent r)

  -- Registering twice under one name is registering the second hook.
  pub register-register :
      (n : String) (g h : H) (r : Registry H)
      → register_spawn_hook n h (register_spawn_hook n g r) ≡ register_spawn_hook n h r
  register-register n g h r =
      rw (register_lem n g r, register_lem n h (replace n g r), register_lem n h r) (go r)
    where
      go : (r : Registry H) → replace n h (replace n g r) ≡ replace n h r
      go [] = ground (arith, eq_iff n n)
      go ((x, f) ∷ r) = ground (arith, eq_iff x n, eq_iff n n, go r)

  -- Removing a name that was just registered, and was not there before, gives the registry back.
  pub remove-register :
      (n : String) (h : H) (r : Registry H)
      → mem n (names r) ≡ false
      → remove_spawn_hook n (register_spawn_hook n h r) ≡ (true, r)
  remove-register n h r new = rw (register_lem n h r, remove_lem n (replace n h r)) (go r new)
    where
      go : (r : Registry H) → mem n (names r) ≡ false → drop n (replace n h r) ≡ (true, r)
      go [] d = ground (arith, eq_iff n n)
      go ((x, f) ∷ r) d = ground (arith, eq_iff x n, go r)
