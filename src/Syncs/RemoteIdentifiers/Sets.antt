-- ===== src/Syncs/RemoteIdentifiers/Sets.antt =====
-- The set operations of the identifiers by membership.
use zmessaging_cocoa.Base.{
  ℕ, zero, suc, ◌≤◌, ◌<◌, ==_iff, true, false, not, ◌&&◌, ◌||◌, ◌≡◌, refl, arith, ◌==◌,
  if◌then◌else◌, List, [], ◌∷◌, ◌++◌, length, if_elim,
}
use zmessaging_cocoa.Syncs.RemoteIdentifiers.{member, union, minus, first, is_empty}

pub member-append : (a : ℕ) (xs ys : List ℕ) → member a (xs ++ ys) ≡ (member a xs || member a ys)
unfolding member
member-append a [] ys = refl
member-append a (x ∷ xs) ys = ground (arith, member-append a xs ys)

insert-member :
    (a y : ℕ) (xs : List ℕ)
    → member a (if member y xs then xs else xs ++ y ∷ []) ≡ (member a xs || y == a)
unfolding member
insert-member a y xs =
    if_elim (λ zs. member a zs ≡ (member a xs || y == a)) (member y xs) xs (xs ++ y ∷ [])
      (λ h. ground arith) (λ h. ground (arith, member-append a xs (y ∷ [])))

pub member-union : (a : ℕ) (xs ys : List ℕ) → member a (union xs ys) ≡ (member a xs || member a ys)
unfolding member union
member-union a xs [] = ground arith
member-union a xs (y ∷ ys) =
    ground
      (arith, member-union a (if member y xs then xs else xs ++ y ∷ []) ys, insert-member a y xs)

pub member-minus :
    (a : ℕ) (xs ys : List ℕ) → member a (minus xs ys) ≡ (member a xs && not (member a ys))
unfolding minus member
member-minus a [] ys = refl
member-minus a (x ∷ xs) ys = ground (arith, member-minus a xs ys)

pub member-first : (a n : ℕ) (xs : List ℕ) → member a (first n xs) ≡ true → member a xs ≡ true
unfolding first member
member-first a zero xs h = ground arith
member-first a (suc n) [] h = h
member-first a (suc n) (x ∷ xs) h = ground (arith, member-first a n xs)

pub length-first : (n : ℕ) (xs : List ℕ) → length (first n xs) ≤ n
unfolding first
length-first zero xs = omega arith
length-first (suc n) [] = omega arith
length-first (suc n) (x ∷ xs) = omega (arith, length-first n xs)

pub length-minus : (xs ys : List ℕ) → length (minus xs ys) ≤ length xs
unfolding minus
length-minus [] ys = omega arith
length-minus (x ∷ xs) ys = ground (arith, length-minus xs ys)

pub nonempty_if_member : (a : ℕ) (xs : List ℕ) → member a xs ≡ true → is_empty xs ≡ false
unfolding member
nonempty_if_member a [] h = ground arith
nonempty_if_member a (x ∷ xs) h = refl

pub empty_if_no_member : (xs : List ℕ) → ((a : ℕ) → member a xs ≡ false) → xs ≡ []
unfolding member
empty_if_no_member [] h = refl
empty_if_no_member (x ∷ xs) h = ground (arith, h x)

-- Taking out an element makes a list shorter.
pub length-minus_one :
    (x : ℕ) (xs : List ℕ) → member x xs ≡ true → length (minus xs (x ∷ [])) < length xs
unfolding minus member
length-minus_one x [] h = ground arith
length-minus_one x (y ∷ xs) h =
    grind (arith, length-minus_one x xs, length-minus xs (x ∷ []), ==_iff y x)
