-- ===== src/Syncs/Downstream/Pending.antt =====
-- ZMDownstreamObjectSync.m: which objects are to be downloaded after a change or a request.
use zmessaging_cocoa.Base.{
  ℕ, zero, suc, Bool, true, not, ◌&&◌, ◌||◌, Option, none, some, List, [], ◌∷◌, ◌≡◌, if◌then◌else◌,
  arith, length, if_elim,
}
use zmessaging_cocoa.Syncs.RemoteIdentifiers.{member}
use zmessaging_cocoa.Syncs.RemoteIdentifiers.Sets.{member-minus, member-union}
use zmessaging_cocoa.Syncs.OperationSet.{next_object, add_object, remove_object, did_start}
use zmessaging_cocoa.Syncs.Downstream.{
  Parts, Downstream, request_loop, objects_did_change, next_request, dropped, begun, add_one,
  needs_to_sync_object,
}

abbrev pub pending_in : {D : Type 0} → ℕ → Downstream D → Bool
pending_in x s = member x s.objects_to_download.pending

module _ {D : Type 0} (p : Parts D) where
  pub pending-objects_did_change :
      (y : ℕ) (xs : List ℕ) (s : Downstream D)
      → pending_in y (objects_did_change p xs s) ≡ true
      → (member y xs || pending_in y s) ≡ true
  unfolding objects_did_change add_object member
  pending-objects_did_change y [] s h = h
  pending-objects_did_change y (x ∷ xs) s h =
      if_elim
        (λ t.
          pending_in y (objects_did_change p xs t) ≡ true
          → (member y (x ∷ xs) || pending_in y s) ≡ true)
        (p.entity.has_object x && needs_to_sync_object p s.outside x) (add_one p x s) s
        (λ c k. ground (
          arith,
          pending-objects_did_change y xs (add_one p x s) k,
          member-union y s.objects_to_download.pending (x ∷ []),
        ))
        (λ c k. ground (arith, pending-objects_did_change y xs s k)) h

  -- What the loop leaves was there before.
  abbrev pub Shrinks : Downstream D → Option (Option (ℕ × ℕ) × Downstream D) → Type 0
  Shrinks s none = Unit
  Shrinks s (some (r, t)) = (y : ℕ) → pending_in y t ≡ true → pending_in y s ≡ true

  Shrinks-dropped :
      (x : ℕ) (d : D) (s : Downstream D) (r : Option (Option (ℕ × ℕ) × Downstream D))
      → Shrinks (dropped p x d s) r
      → Shrinks s r
  unfolding remove_object
  Shrinks-dropped x d s none h = tt
  Shrinks-dropped x d s (some (r, t)) h =
      λ y k. ground (arith, h y k, member-minus y s.objects_to_download.pending (x ∷ []))

  Shrinks-request :
      (n x : ℕ) (s : Downstream D) (after : D) (request : Option ℕ)
      → ((t : Downstream D) → Shrinks t (request_loop p n t))
      → Shrinks s (elim request [
        | none ↦ request_loop p n (dropped p x after s)
        | some r ↦ some (some (r, x), begun p x after s)
      ])
  unfolding did_start
  Shrinks-request n x s after none later =
      Shrinks-dropped x after s (request_loop p n (dropped p x after s))
        (later (dropped p x after s))
  Shrinks-request n x s after (some r) later = λ y k. k

  -- One round, from what the later rounds leave.
  Shrinks-found :
      (n : ℕ) (s : Downstream D) (found : Option ℕ)
      → ((t : Downstream D) → Shrinks t (request_loop p n t))
      → Shrinks s (elim found [
        | none ↦ some (none, s)
        | some x ↦
            let (request, after) = p.transcoder.request_for_fetching_object x s.outside in
            let unwanted = request_loop p n (dropped p x s.outside s) in
            let refused = request_loop p n (dropped p x after s) in
            if not (p.is_to_download s.outside x)
            then unwanted
            else (elim request [ none ↦ refused | some r ↦ some (some (r, x), begun p x after s) ])
      ])
  unfolding did_start
  Shrinks-found n s none later = λ y k. k
  Shrinks-found n s (some x) later =
      let (request, after) = p.transcoder.request_for_fetching_object x s.outside in
      if_elim (Shrinks s) (not (p.is_to_download s.outside x))
        (request_loop p n (dropped p x s.outside s))
        (elim request [
          | none ↦ request_loop p n (dropped p x after s)
          | some r ↦ some (some (r, x), begun p x after s)
        ])
        (λ c.
          Shrinks-dropped x s.outside s (request_loop p n (dropped p x s.outside s))
            (later (dropped p x s.outside s)))
        (λ c. Shrinks-request n x s after request later)

  request_loop-Shrinks : (n : ℕ) (s : Downstream D) → Shrinks s (request_loop p n s)
  unfolding request_loop
  request_loop-Shrinks zero s = tt
  request_loop-Shrinks (suc n) s =
      Shrinks-found n s (next_object p.context.first_not_in none s.objects_to_download)
        (λ t. request_loop-Shrinks n t)

  pub next_request-Shrinks : (s : Downstream D) → Shrinks s (next_request p s)
  unfolding next_request
  next_request-Shrinks s = request_loop-Shrinks (suc (length s.objects_to_download.pending)) s
