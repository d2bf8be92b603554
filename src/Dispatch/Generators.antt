-- ===== src/Dispatch/Generators.antt =====
-- ZMRequestGenerator.h and .m: objects that may have a request, asked in order. A request is a
-- number; asking changes the generators' common states, of the type `T`.
use zmessaging_cocoa.Base.{
  ℕ, Option, none, some, List, [], ◌∷◌, ◌++◌, if◌then◌else◌, ◌≡◌, refl, arith, is_some,
}

-- ZMRequestGenerator.
pub record RequestGenerator (T : Type 0) : Type 0 where
  pub next_request : T → Option ℕ × T

-- ZMRequestGeneratorSource.
pub record RequestGeneratorSource (T : Type 0) : Type 0 where
  pub request_generators : T → List (RequestGenerator T)

module _ {T : Type 0} where
  -- `nextRequest` of an array: the first that is not nil. Those behind it are not asked.
  unfoldable pub next_request : List (RequestGenerator T) → T → Option ℕ × T
  next_request [] t = (none, t)
  next_request (g ∷ gs) t =
      let (request, after) = g.next_request t in
      let rest = next_request gs after in if is_some request then (request, after) else rest

  -- Asking an array that is put together from two is asking the second only if the first has none,
  -- in the states that the first has left.
  pub next_request-append :
      (gs hs : List (RequestGenerator T)) (t : T)
      → next_request (gs ++ hs) t ≡ (elim (next_request gs t).0 [
        | none ↦ next_request hs (next_request gs t).1
        | some r ↦ next_request gs t
      ])
  unfolding next_request
  next_request-append [] hs t = refl
  next_request-append (g ∷ gs) hs t = ground (arith, next_request-append gs hs (g.next_request t).1)
