-- ===== src/HotFix/Versions.antt =====
-- ZMVersion in Source/Synchronization/ZMHotFix.m: versions of an app, and their order.
use zmessaging_cocoa.Base.{
  ℕ, Bool, true, false, ◌&&◌, Option, none, some, List, [], ◌∷◌, suc, if◌then◌else◌, ◌==◌, ltb,
}

abbrev pub Text : Type 0
Text = List ℕ

-- NSComparisonResult.
pub data Comparison : Type 0 where
  ascending same descending : Comparison

-- ZMVersion. The array has number objects, which are their addresses.
pub record Version : Type 0 where
  pub array_representation : List ℕ
  pub version_string : Text

abbrev pub equal_text : Text → Text → Bool
equal_text [] [] = true
equal_text [] (d ∷ ds) = false
equal_text (c ∷ cs) [] = false
equal_text (c ∷ cs) (d ∷ ds) = c == d && equal_text cs ds

abbrev pub put_first : ℕ → List Text → List Text
put_first c [] = (c ∷ []) ∷ []
put_first c (w ∷ ws) = (c ∷ w) ∷ ws

-- `componentsSeparatedByString:@"."`
unfoldable pub components : Text → List Text
components [] = [] ∷ []
components (c ∷ cs) = let rest = components cs in if c == b'.' then [] ∷ rest else put_first c rest

-- The number objects that box the integers of an array's texts, which is at the index `i` from there.
-- Each is an object of its own, at the address that the platform gives it.
unfoldable pub boxed : (ℕ → Text → ℕ) → ℕ → List Text → List ℕ
boxed address i [] = []
boxed address i (w ∷ ws) = address i w ∷ boxed address (suc i) ws

-- `initWithVersionString:`, of a text that is not nil.
unfoldable pub version_of : (ℕ → Text → ℕ) → Text → Version
unfolding components boxed
version_of address t = record {
  array_representation = boxed address 0 (components t);
  version_string = t;
}

-- The loop of `compareWithVersion:`. It compares the objects themselves, not what they stand for.
unfoldable pub compare_numbers : List ℕ → List ℕ → Comparison
compare_numbers [] [] = Comparison.same
compare_numbers [] (y ∷ ys) = Comparison.ascending
compare_numbers (x ∷ xs) [] = Comparison.descending
compare_numbers (x ∷ xs) (y ∷ ys) =
    let rest = compare_numbers xs ys in
    if ltb y x then Comparison.descending else if ltb x y then Comparison.ascending else rest

-- `compareWithVersion:`, where the other version may be nil.
unfoldable pub compare_with : Version → Option Version → Comparison
unfolding compare_numbers
compare_with u none = Comparison.descending
compare_with u (some v) = elim v.array_representation [
  | [] ↦ Comparison.descending
  | y ∷ ys ↦
      if equal_text u.version_string v.version_string
      then Comparison.same
      else compare_numbers u.array_representation (y ∷ ys)
]

-- ZMVersion, as its header declares it.
pub record Versioning : Type 0 where
  pub array : Version → List ℕ
  pub string : Version → Text
  pub from_string : (ℕ → Text → ℕ) → Text → Version
  pub compare_to : Version → Option Version → Comparison

abbrev pub versioning : Versioning
versioning = record {
  array = λ v. v.array_representation;
  string = λ v. v.version_string;
  from_string = version_of;
  compare_to = compare_with;
}
