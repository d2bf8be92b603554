-- ===== src/Syncs/Downstream/Loop.antt =====
-- ZMDownstreamObjectSync.m: the loop of `nextRequest` ends, and what a response leaves to download.
use zmessaging_cocoa.Base.{
  ℕ, zero, suc, ◌<◌, Bool, true, false, not, ◌&&◌, Option, none, some, is_some, List, [], ◌∷◌, ◌≡◌,
  if◌then◌else◌, length, arith, ==_refl, ==_iff, ◌==◌, Option-cases, inl, inr, refl,
}
use zmessaging_cocoa.States.World.{ResponseStatus}
use zmessaging_cocoa.Syncs.RemoteIdentifiers.{member, minus}
use zmessaging_cocoa.Syncs.RemoteIdentifiers.Sets.{member-minus, length-minus_one}
use zmessaging_cocoa.Syncs.OperationSet.{
  OperationSet, next_object, did_finish, remove_updated, remove_object, synchronized_keys,
  unchanged_keys,
}
use zmessaging_cocoa.Syncs.Downstream.{
  Parts, Downstream, request_loop, next_request, process_response, dropped,
}

-- A search gives an element.
pub record IsSearch (first_not_in : List ℕ → List ℕ → Option ℕ) : Type 0 where
  pub gives : (out xs : List ℕ) (x : ℕ) → first_not_in out xs ≡ some x → member x xs ≡ true

-- The search that the set makes.
abbrev pub search_used :
    (List ℕ → List ℕ → Option ℕ) → Option (List ℕ → List ℕ → Option ℕ) → List ℕ → List ℕ → Option ℕ
search_used first_not_in none = first_not_in
search_used first_not_in (some sorted) = sorted

next_object-gives :
    (first_not_in : List ℕ → List ℕ → Option ℕ) (s : OperationSet) (x : ℕ)
    (sorted : Option (List ℕ → List ℕ → Option ℕ))
    → s.sort_descriptors ≡ sorted
    → IsSearch (search_used first_not_in sorted)
    → next_object first_not_in none s ≡ some x
    → member x s.pending ≡ true
unfolding next_object
next_object-gives first_not_in s x none d finds h =
    finds.gives s.being_synchronized s.pending x (ground (arith, d, h))
next_object-gives first_not_in s x (some f) d finds h =
    finds.gives s.being_synchronized s.pending x (ground (arith, d, h))

-- What a response means for its object: false for one that says to try again later.
abbrev pub is_final : ResponseStatus → Bool
is_final ResponseStatus.try_again_later = false
is_final _ = true

module _ {D : Type 0} (p : Parts D) where
  request_loop-ends :
      (n : ℕ) (s : Downstream D) (sorted : Option (List ℕ → List ℕ → Option ℕ))
      → s.objects_to_download.sort_descriptors ≡ sorted
      → IsSearch (search_used p.context.first_not_in sorted)
      → length s.objects_to_download.pending < n
      → is_some (request_loop p n s) ≡ true
  unfolding request_loop remove_object
  request_loop-ends zero s sorted d finds h = ground arith
  request_loop-ends (suc n) s sorted d finds h =
      elim (Option-cases (next_object p.context.first_not_in none s.objects_to_download)) [
        | inl e ↦ ground (arith, e)
        | inr (x, e) ↦
            let (request, after) = p.transcoder.request_for_fetching_object x s.outside in
            let shorter : length (minus s.objects_to_download.pending (x ∷ []))
                < length s.objects_to_download.pending =
              length-minus_one x s.objects_to_download.pending (
                next_object-gives p.context.first_not_in s.objects_to_download x sorted d finds
                  e) in
            ground (
              arith,
              e,
              request_loop-ends n (dropped p x s.outside s) sorted d finds
                  (ground (arith, shorter)),
              request_loop-ends n (dropped p x after s) sorted d finds (ground (arith, shorter)),
            )
      ]

  -- For every state, `nextRequest` ends, with a request or without one, provided that the search
  -- that the set makes gives an element of the set it searches.
  pub next_request_ends :
      (s : Downstream D)
      → IsSearch (search_used p.context.first_not_in s.objects_to_download.sort_descriptors)
      → is_some (next_request p s) ≡ true
  unfolding next_request
  next_request_ends s finds =
      request_loop-ends (suc (length s.objects_to_download.pending)) s
        s.objects_to_download.sort_descriptors refl finds (omega arith)

  -- What a response does with the world besides the set.
  abbrev pub outcome : ResponseStatus → ℕ → D → D
  outcome ResponseStatus.try_again_later x d = d
  outcome ResponseStatus.success x d =
      if p.context.is_zombie d x then d else p.transcoder.update_object x d
  outcome _ x d = p.transcoder.delete_object x d

  -- What a response leaves to be downloaded: nothing of its object, except after one that says to
  -- try again later, which leaves the object pending and free to be asked for again; other objects
  -- stay as they were. Success updates an object that still exists, and an error or an expiry
  -- deletes it.
  pub response_ends :
      (result : ResponseStatus) (x y : ℕ) (s : Downstream D)
      → let after = process_response p result x s in
        (member y after.objects_to_download.pending
          ≡ (member y s.objects_to_download.pending && not (x == y && is_final result)))
        × (member x after.objects_to_download.being_synchronized ≡ false)
        × (after.outside ≡ outcome result x s.outside)
  unfolding process_response did_finish remove_updated remove_object synchronized_keys
      unchanged_keys member
  response_ends ResponseStatus.try_again_later x y s = (
    ground (arith, member-minus y s.objects_to_download.pending (x ∷ []), ==_iff x y),
    ground (arith, member-minus x s.objects_to_download.being_synchronized (x ∷ []), ==_refl x),
    refl,
  )
  response_ends ResponseStatus.success x y s = (
    ground (arith, member-minus y s.objects_to_download.pending (x ∷ []), ==_iff x y),
    ground (arith, member-minus x s.objects_to_download.being_synchronized (x ∷ []), ==_refl x),
    refl,
  )
  response_ends ResponseStatus.temporary_error x y s = (
    ground (arith, member-minus y s.objects_to_download.pending (x ∷ []), ==_iff x y),
    ground (arith, member-minus x s.objects_to_download.being_synchronized (x ∷ []), ==_refl x),
    refl,
  )
  response_ends ResponseStatus.permanent_error x y s = (
    ground (arith, member-minus y s.objects_to_download.pending (x ∷ []), ==_iff x y),
    ground (arith, member-minus x s.objects_to_download.being_synchronized (x ∷ []), ==_refl x),
    refl,
  )
  response_ends ResponseStatus.expired x y s = (
    ground (arith, member-minus y s.objects_to_download.pending (x ∷ []), ==_iff x y),
    ground (arith, member-minus x s.objects_to_download.being_synchronized (x ∷ []), ==_refl x),
    refl,
  )
