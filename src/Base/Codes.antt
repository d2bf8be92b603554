-- ===== src/Base/Codes.antt =====
-- Enumerations with documented numbers: a value from its number, found in the list of all values.
use Prim.Native.Nat.{ℕ}
use mathlib.Core.Option.{Option, none, some}
use mathlib.Core.List.{List, [], ◌∷◌}
use mathlib.Core.Path.{◌≡◌}
use native.Mathlib.Omega.{arith}
use zmessaging_cocoa.Base.Tests.{if◌then◌else◌, ◌==◌}

module _ {ℓ} {A : Type ℓ} (code : A → ℕ) where
  -- The first value of the list with the number.
  unfoldable pub decode : List A → ℕ → Option A
  decode [] n = none
  decode (a ∷ xs) n = let later = decode xs n in if code a == n then some a else later

  -- What is found has the number.
  pub decode_sound : (xs : List A) (n : ℕ) (a : A) → decode xs n ≡ some a → code a ≡ n
  unfolding decode
  decode_sound [] n a e = ground arith
  decode_sound (x ∷ xs) n a e = grind (arith, decode_sound xs n a)

-- An enumeration whose values have numbers, each found again from its number.
pub record Coded {ℓ} (A : Type ℓ) : Type ℓ where
  pub code : A → ℕ
  pub values : List A
  pub found : (a : A) → decode code values (code a) ≡ some a
