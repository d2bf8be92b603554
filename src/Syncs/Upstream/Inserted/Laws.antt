-- ===== src/Syncs/Upstream/Inserted/Laws.antt =====
-- ZMUpstreamInsertedObjectSync.m: which object is asked for, and what a response leaves to be sent.
use zmessaging_cocoa.Base.{
  ℕ, zero, suc, ◌<◌, Bool, true, false, not, ◌&&◌, Option, none, some, is_none, List, [], ◌∷◌, ◌≡◌,
  if◌then◌else◌, length, arith, ==_refl, ==_iff, Option-cases, inl, inr, refl, if_elim,
}
use zmessaging_cocoa.States.World.{ResponseStatus}
use zmessaging_cocoa.Syncs.RemoteIdentifiers.{member, minus}
use zmessaging_cocoa.Syncs.RemoteIdentifiers.Sets.{member-minus, member-union, length-minus_one}
use zmessaging_cocoa.Syncs.InsertedSet.{
  InsertedSet, IsChoice, any_object, did_finish_object, did_start_object, did_fail_object,
  is_synchronizing, add_object_to_synchronize, remove_object_to_synchronize,
}
use zmessaging_cocoa.Syncs.Upstream.{Response, UpstreamRequest, dependency_of}
use zmessaging_cocoa.Syncs.Upstream.Inserted.{
  Parts, Inserted, Asked, next_object, process_insert, next_request, insert_failed, ended,
  handle_response, process_response,
}

-- What is offered is in the set and not under way.
offered_member :
    (any : List ℕ → Option ℕ) (x : ℕ) (s : InsertedSet)
    → IsChoice any
    → any_object any s ≡ some x
    → (member x s.inserted ≡ true) × (member x s.synchronizing ≡ false)
unfolding any_object
offered_member any x s choice e = ground (
  arith,
  choice.gives x (minus s.inserted s.synchronizing) e,
  member-minus x s.inserted s.synchronizing,
)

finished_shorter :
    (x : ℕ) (s : InsertedSet) (n : ℕ)
    → length s.inserted < suc n
    → member x s.inserted ≡ true
    → length (did_finish_object x s).inserted < n
unfolding did_finish_object remove_object_to_synchronize
finished_shorter x s n h e = omega (arith, length-minus_one x s.inserted e)

module _ {D : Type 0} (p : Parts D) where
  -- What the loop finds, from the set as it was before.
  abbrev Found : D → InsertedSet → Option (Option ℕ × InsertedSet) → Type 0
  Found d s none = ⊥
  Found d s (some (none, s')) = any_object p.context.any s' ≡ none
  Found d s (some (some x, s')) =
      (member x s.synchronizing ≡ false)
      × (member x s'.inserted ≡ true)
      × (p.context.needs_insert d x ≡ true)
      × (p.context.is_zombie d x ≡ false)

  Found-later :
      (d : D) (s : InsertedSet) (x : ℕ) (o : Option (Option ℕ × InsertedSet))
      → member x s.synchronizing ≡ false
      → Found d (did_finish_object x s) o
      → Found d s o
  unfolding did_finish_object remove_object_to_synchronize member
  Found-later d s x none h f = f
  Found-later d s x (some (none, s')) h f = f
  Found-later d s x (some (some y, s')) h f =
      ground (arith, f.0, f.1, f.2, f.3, member-minus y s.synchronizing (x ∷ []), ==_iff x y)

  next_object-Found :
      IsChoice p.context.any
      → (n : ℕ) (d : D) (s : InsertedSet) → length s.inserted < n
      → Found d s (next_object p n d s)
  unfolding next_object
  next_object-Found choice zero d s h = ground arith
  next_object-Found choice (suc n) d s h = elim (Option-cases (any_object p.context.any s)) [
    | inl e ↦ rw (e, Found) e
    | inr (x, e) ↦
        rw (e, Found)
          (if_elim (Found d s) (p.context.needs_insert d x && not (p.context.is_zombie d x))
            (some (some x, s)) (next_object p n d (did_finish_object x s))
            (λ wanted. ground (arith, wanted, offered_member p.context.any x s choice e))
            (λ done.
              Found-later d s x (next_object p n d (did_finish_object x s))
                (offered_member p.context.any x s choice e).1
                (next_object-Found choice n d (did_finish_object x s)
                  (finished_shorter x s n h (offered_member p.context.any x s choice e).0))))
  ]

  -- What `nextRequest` answers: never a failed assertion or a loop that does not end; a request is
  -- of an object that is to be inserted, still exists and was not under way, and now is.
  abbrev pub Answers : Inserted D → Option (Asked p) → Type 0
  Answers s none = ⊥
  Answers s (some (none, t)) = t.waiting ≡ s.waiting
  Answers s (some (some (r, x), t)) =
      (member x s.objects.synchronizing ≡ false)
      × (p.context.needs_insert s.outside x ≡ true)
      × (p.context.is_zombie s.outside x ≡ false)
      × (is_synchronizing x t.objects ≡ true)
      × (member x t.objects.inserted ≡ true)

  process_insert-Answers :
      (s : Inserted D) (o : Option (Option ℕ × InsertedSet))
      → Found s.outside s.objects o
      → Answers s (elim o [
        | none ↦ none
        | some (none, objects) ↦ some (none, record s { objects = objects })
        | some (some x, objects) ↦ process_insert p x (record s { objects = objects })
      ])
  unfolding process_insert did_start_object is_synchronizing member
  process_insert-Answers s none f = f
  process_insert-Answers s (some (none, objects)) f = refl
  process_insert-Answers s (some (some x, objects)) f =
      ground (arith, f.0, f.1, f.2, f.3, ==_refl x, member-union x objects.synchronizing (x ∷ []))

  pub next_insert-Answers : IsChoice p.context.any → (s : Inserted D) → Answers s (next_request p s)
  unfolding next_request
  next_insert-Answers choice s =
      process_insert-Answers s (next_object p (suc (length s.objects.inserted)) s.outside s.objects)
        (next_object-Found choice (suc (length s.objects.inserted)) s.outside s.objects
          (omega arith))

  -- Whether the transcoder wants the object to be sent again after a permanent error, and the object
  -- then depends on nothing.
  abbrev pub resent : ℕ → UpstreamRequest → Response → Inserted D → Bool
  resent x r response s = elim p.transcoder.should_retry_after_failed_update [
    | none ↦ false
    | some f ↦
        let (again, d) = f x r response [] s.outside in
        again && is_none (elim s.waiting [ none ↦ none | some t ↦ dependency_of p.transcoder x d ])
  ]

  -- Whether an object that is not ignored is still to be sent after a response.
  abbrev pub still_to_send : ℕ → UpstreamRequest → Response → Inserted D → Bool
  still_to_send x r response s = elim response.result [
    | ResponseStatus.try_again_later ↦ member x s.objects.inserted
    | ResponseStatus.permanent_error ↦ resent x r response s
    | _ ↦ false
  ]

  abbrev pub Ends : ℕ → Bool → Option (Inserted D) → Type 0
  Ends x kept none = ⊥
  Ends x kept (some t) =
      (member x t.objects.synchronizing ≡ false) × (member x t.objects.inserted ≡ kept)

  finished-Ends : (x : ℕ) (t : Inserted D) → Ends x false (ended p x (true, t))
  unfolding did_finish_object remove_object_to_synchronize member
  finished-Ends x t = ground (
    arith,
    ==_refl x,
    member-minus x t.objects.synchronizing (x ∷ []),
    member-minus x t.objects.inserted (x ∷ []),
  )

  failed-Ends :
      (x : ℕ) (t : Inserted D) (kept : Bool)
      → member x t.objects.synchronizing ≡ true
      → member x t.objects.inserted ≡ kept
      → Ends x kept (ended p x (false, t))
  unfolding did_fail_object member
  failed-Ends x t kept h k =
      ground (arith, ==_refl x, member-minus x t.objects.synchronizing (x ∷ []))

  insert_failed-Ends :
      (x : ℕ) (r : UpstreamRequest) (response : Response) (s : Inserted D)
      → member x s.objects.synchronizing ≡ true
      → Ends x (resent x r response s) (ended p x (insert_failed p x r response s))
  unfolding insert_failed did_finish_object remove_object_to_synchronize did_fail_object member
      add_object_to_synchronize
  insert_failed-Ends x r response s h = ground (
    arith,
    ==_refl x,
    member-minus x s.objects.synchronizing (x ∷ []),
    member-minus x s.objects.inserted (x ∷ []),
    member-union x s.objects.inserted (x ∷ []),
  )

  response-Ends_by :
      (result : ResponseStatus) (payload : ℕ) (x : ℕ) (r : UpstreamRequest) (s : Inserted D)
      → member x s.objects.synchronizing ≡ true
      → let response : Response = record { result = result; payload = payload } in
        Ends x (still_to_send x r response s) (ended p x (handle_response p x r response s))
  unfolding handle_response
  response-Ends_by ResponseStatus.success payload x r s h = finished-Ends x s
  response-Ends_by ResponseStatus.temporary_error payload x r s h = finished-Ends x s
  response-Ends_by ResponseStatus.expired payload x r s h = finished-Ends x s
  response-Ends_by ResponseStatus.try_again_later payload x r s h =
      failed-Ends x s (member x s.objects.inserted) h refl
  response-Ends_by ResponseStatus.permanent_error payload x r s h = insert_failed-Ends x r _ s h

  if-Ends :
      (x : ℕ) (b kept : Bool) (u v : Bool × Inserted D)
      → Ends x false (ended p x u)
      → Ends x kept (ended p x v)
      → Ends x (if b then false else kept) (ended p x (if b then u else v))
  if-Ends x true kept u v h k = h
  if-Ends x false kept u v h k = k

  -- The response to an object that is under way never fails an assertion, also not if it has expired
  -- and the transcoder does not implement `requestExpiredForObject:forKeys:`. After it the object is
  -- not under way, and it is still to be sent exactly if it had not left the set meanwhile and the
  -- response says to try again later and it was in the set, or there was a permanent error, the
  -- transcoder retries and nothing is depended on.
  pub insert_response-Ends :
      (x : ℕ) (r : UpstreamRequest) (response : Response) (s : Inserted D)
      → member x s.objects.synchronizing ≡ true
      → Ends x
          (if member x s.ignored then false else still_to_send x r response s)
          (process_response p x r response s)
  unfolding process_response
  insert_response-Ends x r response s h =
      if-Ends x (member x s.ignored) (still_to_send x r response s)
        (true, record s { ignored = minus s.ignored (x ∷ []) }) (handle_response p x r response s)
        (finished-Ends x (record s { ignored = minus s.ignored (x ∷ []) }))
        (response-Ends_by response.result response.payload x r s h)

  -- The response to an object that has left the set while it was under way is dropped: nothing
  -- outside of the sync changes, and the object may be put in and sent again.
  pub ignored_response_dropped :
      (x : ℕ) (r : UpstreamRequest) (response : Response) (s t : Inserted D)
      → member x s.ignored ≡ true
      → process_response p x r response s ≡ some t
      → (t.outside ≡ s.outside) × (t.waiting ≡ s.waiting) × (member x t.ignored ≡ false)
  unfolding process_response did_finish_object remove_object_to_synchronize member
  ignored_response_dropped x r response s t h e =
      ground (arith, ==_refl x, member-minus x s.ignored (x ∷ []))
