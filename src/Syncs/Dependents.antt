-- ===== src/Syncs/Dependents.antt =====
-- ZMDependentObjects.m: objects that wait for others. Objects are numbers, and the map table is an
-- association list.
use zmessaging_cocoa.Base.{
  ℕ, Bool, true, false, Option, none, some, List, [], ◌∷◌, ◌++◌, ◌≡◌, refl, arith, ◌==◌,
  if◌then◌else◌, ==_iff, Option-cases, inl, inr,
}
use zmessaging_cocoa.Syncs.RemoteIdentifiers.{member}

abbrev pub Table : Type 0
Table = List (ℕ × List ℕ)

-- `objectForKey:`
unfoldable pub tracked : ℕ → Table → Option (List ℕ)
tracked d [] = none
tracked d ((k, xs) ∷ rest) = let found = tracked d rest in if k == d then some xs else found

-- `setObject:forKey:`
unfoldable pub set_tracked : ℕ → List ℕ → Table → Table
set_tracked d ys [] = (d, ys) ∷ []
set_tracked d ys ((k, xs) ∷ rest) =
    let others = set_tracked d ys rest in if k == d then (k, ys) ∷ rest else (k, xs) ∷ others

-- `removeObjectForKey:`
unfoldable pub remove_tracked : ℕ → Table → Table
remove_tracked d [] = []
remove_tracked d ((k, xs) ∷ rest) =
    let others = remove_tracked d rest in if k == d then others else (k, xs) ∷ others

-- `addManagedObject:withDependency:`
unfoldable pub add_dependent : ℕ → ℕ → Table → Table
add_dependent x d t = elim (tracked d t) [
  | none ↦ set_tracked d (x ∷ []) t
  | some xs ↦ set_tracked d (if member x xs then xs else xs ++ x ∷ []) t
]

unfoldable pub any_dependency : ℕ → Table → Option ℕ
any_dependency x [] = none
any_dependency x ((k, xs) ∷ rest) =
    let found = any_dependency x rest in if member x xs then some k else found

-- The dependants for which the block answers NO.
pub remaining : (ℕ → Bool) → List ℕ → List ℕ
remaining block [] = []
remaining block (x ∷ xs) = let rest = remaining block xs in if block x then rest else x ∷ rest

-- `enumerateManagedObjectsForDependency:withBlock:`
pub enumerate : ℕ → (ℕ → Bool) → Table → Table
enumerate d block t = elim (tracked d t) [
  | none ↦ t
  | some xs ↦ elim (remaining block xs) [
    | [] ↦ remove_tracked d t
    | x ∷ rest ↦ set_tracked d (x ∷ rest) t
  ]
]

-- Whether an object waits for another.
pub waits_for : ℕ → ℕ → Table → Bool
waits_for x d t = elim (tracked d t) [ none ↦ false | some xs ↦ member x xs ]

tracked-set_tracked :
    (d e : ℕ) (ys : List ℕ) (t : Table)
    → tracked e (set_tracked d ys t) ≡ (if d == e then some ys else tracked e t)
unfolding tracked set_tracked
tracked-set_tracked d e ys [] = ground arith
tracked-set_tracked d e ys ((k, xs) ∷ rest) = ground (arith, tracked-set_tracked d e ys rest)

tracked-remove_tracked :
    (d e : ℕ) (t : Table) → tracked e (remove_tracked d t) ≡ (if d == e then none else tracked e t)
unfolding tracked remove_tracked
tracked-remove_tracked d e [] = ground arith
tracked-remove_tracked d e ((k, xs) ∷ rest) = ground (arith, tracked-remove_tracked d e rest)

member-append_one :
    (x y : ℕ) (xs : List ℕ) → member x (xs ++ y ∷ []) ≡ (if y == x then true else member x xs)
unfolding member
member-append_one x y [] = ground arith
member-append_one x y (z ∷ xs) = ground (arith, member-append_one x y xs)

member-remaining :
    (x : ℕ) (block : ℕ → Bool) (xs : List ℕ)
    → member x (remaining block xs) ≡ (if block x then false else member x xs)
unfolding member remaining
member-remaining x block [] = ground arith
member-remaining x block (y ∷ xs) = grind (arith, member-remaining x block xs)

-- Adding a dependent makes it wait for its dependency, and changes nothing about any other pair of
-- objects.
pub waits_for-add_dependent :
    (x d y e : ℕ) (t : Table)
    → waits_for y e (add_dependent x d t)
      ≡ (if d == e then (if x == y then true else waits_for y e t) else waits_for y e t)
unfolding waits_for add_dependent member
waits_for-add_dependent x d y e t = elim (Option-cases (tracked d t)) [
  | inl absent ↦ ground (arith, absent, ==_iff d e, tracked-set_tracked d e (x ∷ []) t)
  | inr (xs, is) ↦ ground (
    arith,
    is,
    ==_iff d e,
    member-append_one y x xs,
    ==_iff x y,
    tracked-set_tracked d e (if member x xs then xs else xs ++ x ∷ []) t,
  )
]

enumerate-tracked :
    (d : ℕ) (block : ℕ → Bool) (y e : ℕ) (t : Table) (xs rest : List ℕ)
    → tracked d t ≡ some xs
    → remaining block xs ≡ rest
    → waits_for y e (enumerate d block t)
      ≡ (if d == e then (if block y then false else waits_for y e t) else waits_for y e t)
unfolding waits_for enumerate member
enumerate-tracked d block y e t xs [] is r =
    ground (arith, ==_iff d e, member-remaining y block xs, tracked-remove_tracked d e t)
enumerate-tracked d block y e t xs (z ∷ rest) is r =
    ground (arith, ==_iff d e, member-remaining y block xs, tracked-set_tracked d e (z ∷ rest) t)

-- Enumerating the dependents of `d` removes exactly those for which the block answers YES, and
-- changes nothing about any other dependency.
pub waits_for-enumerate :
    (d : ℕ) (block : ℕ → Bool) (y e : ℕ) (t : Table)
    → waits_for y e (enumerate d block t)
      ≡ (if d == e then (if block y then false else waits_for y e t) else waits_for y e t)
unfolding waits_for enumerate
waits_for-enumerate d block y e t = elim (Option-cases (tracked d t)) [
  | inl absent ↦ ground (arith, absent, ==_iff d e)
  | inr (xs, is) ↦ enumerate-tracked d block y e t xs (remaining block xs) is refl
]
