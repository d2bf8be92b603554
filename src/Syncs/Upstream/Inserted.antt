-- ===== src/Syncs/Upstream/Inserted.antt =====
-- ZMUpstreamInsertedObjectSync.m: objects that were created locally are sent one by one, over
-- ZMLocallyInsertedObjectSet and ZMDependentObjects. The loop of `nextObjectToSync` is on fuel, one
-- more than the objects in the set; out of fuel and a failed assertion are none.
pub mod Laws
use zmessaging_cocoa.Base.{
  ℕ, zero, suc, Bool, true, false, not, ◌&&◌, Option, none, some, List, [], ◌∷◌, if◌then◌else◌, ltb,
  length,
}
use zmessaging_cocoa.States.World.{ResponseStatus}
use zmessaging_cocoa.Syncs.RemoteIdentifiers.{member, union, minus}
use zmessaging_cocoa.Syncs.InsertedSet.{
  InsertedSet, add_object_to_synchronize, remove_object_to_synchronize, any_object,
  did_finish_object, did_start_object, did_fail_object, is_synchronizing,
}
use zmessaging_cocoa.Syncs.InsertedSet as Inserts
use zmessaging_cocoa.Syncs.Dependents.{Table, add_dependent}
use zmessaging_cocoa.Syncs.Upstream.{
  Response, UpstreamRequest, UpstreamTranscoder, dependency_of, refuses_request, check_dependency,
}

-- The context and the entity's class: the choice of `anyObject`, which objects are of the entity and
-- which of them are to be inserted, and what is done to an object.
pub record Context (D : Type 0) : Type 0 where
  pub any : List ℕ → Option ℕ
  pub has_object : ℕ → Bool
  pub needs_insert : D → ℕ → Bool  -- predicateForObjectsThatNeedToBeInsertedUpstream
  pub is_zombie : D → ℕ → Bool
  pub delete_object : ℕ → D → D
  pub reset_modifications : ℕ → D → D

pub record Parts (D : Type 0) : Type 0 where
  pub transcoder : UpstreamTranscoder D
  pub context : Context D
  pub filter : Option (D → ℕ → Bool)

-- The state of ZMUpstreamInsertedObjectSync.
pub record Inserted (D : Type 0) : Type 0 where
  pub objects : InsertedSet
  pub waiting : Option Table  -- insertedObjectsWithDependencies
  pub ignored : List ℕ
  pub outside : D

module _ {D : Type 0} (t : UpstreamTranscoder D) (c : Context D) where
  unfoldable pub init_with_filter : Option (D → ℕ → Bool) → D → Parts D × Inserted D
  init_with_filter filter d = (
    record { transcoder = t; context = c; filter = filter },
    record {
      objects = Inserts.init;
      waiting = elim t.dependent_object_needing_update [ none ↦ none | some f ↦ some [] ];
      ignored = [];
      outside = d;
    },
  )

  unfoldable pub init : D → Parts D × Inserted D
  unfolding init_with_filter
  init d = init_with_filter none d

module _ {D : Type 0} (p : Parts D) where
  abbrev should_add : D → ℕ → Bool
  should_add d x = elim p.filter [ none ↦ true | some f ↦ f d x ]

  abbrev add_free : ℕ → Inserted D → Inserted D
  add_free x s = record s { objects = add_object_to_synchronize x s.objects }

  -- `addInsertedObject:`
  unfoldable pub add_inserted : ℕ → Inserted D → Bool × Inserted D
  add_inserted x s = elim s.waiting [
    | none ↦ (true, add_free x s)
    | some table ↦ (elim (dependency_of p.transcoder x s.outside) [
      | none ↦ (true, add_free x s)
      | some d ↦ (false, record s { waiting = some (add_dependent x d table) })
    ])
  ]

  unfoldable pub check_inserted : ℕ → Inserted D → Inserted D
  unfolding check_dependency
  check_inserted d s =
      let (waiting, objects) =
        check_dependency (λ x. dependency_of p.transcoder x s.outside) add_object_to_synchronize d
          s.waiting s.objects in
      record s { waiting = waiting; objects = objects }

  unfoldable pub add_tracked_objects : List ℕ → Inserted D → Inserted D
  unfolding add_inserted
  add_tracked_objects [] s = s
  add_tracked_objects (x ∷ xs) s =
      add_tracked_objects xs (if should_add s.outside x then (add_inserted x s).1 else s)

  abbrev added_again : ℕ → Inserted D → Inserted D
  added_again x s = record s { ignored = minus s.ignored (x ∷ []) }

  abbrev taken_out : ℕ → Inserted D → Inserted D
  taken_out x s = record s {
    objects = remove_object_to_synchronize x s.objects;
    ignored =
        if is_synchronizing x (remove_object_to_synchronize x s.objects)
        then union s.ignored (x ∷ [])
        else s.ignored;
  }

  -- One round of `objectsDidChange:`.
  unfoldable pub object_did_change : ℕ → Inserted D → Inserted D
  unfolding add_inserted check_inserted
  object_did_change x s = check_inserted x (
      if p.context.has_object x
      then (if p.context.needs_insert s.outside x && should_add s.outside x
          then added_again x (add_inserted x s).1
          else taken_out x s)
      else s)

  unfoldable pub objects_did_change : List ℕ → Inserted D → Inserted D
  unfolding object_did_change
  objects_did_change [] s = s
  objects_did_change (x ∷ xs) s = objects_did_change xs (object_did_change x s)

  unfoldable pub has_currently_running_requests : Inserted D → Bool
  has_currently_running_requests s = ltb 0 (Inserts.count s.objects)

  -- The loop of `nextObjectToSync`.
  unfoldable pub next_object : ℕ → D → InsertedSet → Option (Option ℕ × InsertedSet)
  next_object zero d s = none
  next_object (suc n) d s = elim (any_object p.context.any s) [
    | none ↦ some (none, s)
    | some x ↦
        let later = next_object n d (did_finish_object x s) in
        if p.context.needs_insert d x && not (p.context.is_zombie d x)
        then some (some x, s)
        else later
  ]

  abbrev pub Asked : Type 0
  Asked = Option (UpstreamRequest × ℕ) × Inserted D

  abbrev dismissed : ℕ → D → Inserted D → Inserted D
  dismissed x d s = record s {
    objects = did_finish_object x s.objects;
    outside = p.context.reset_modifications x d;
  }

  abbrev begun : UpstreamRequest → ℕ → D → Inserted D → Option Asked
  begun r x d s = elim (did_start_object x s.objects) [
    | none ↦ none
    | some objects ↦ some (some (r, x), record s { objects = objects; outside = d })
  ]

  -- `processNextInsert`, of the object that was found.
  unfoldable pub process_insert : ℕ → Inserted D → Option Asked
  process_insert x s =
      let (request, after) = p.transcoder.request_for_inserting_object x none s.outside in
      if refuses_request p.transcoder x [] s.outside
      then some (none, s)
      else (elim request [ none ↦ some (none, dismissed x after s) | some r ↦ begun r x after s ])

  unfoldable pub next_request : Inserted D → Option Asked
  unfolding next_object process_insert
  next_request s = elim (next_object (suc (length s.objects.inserted)) s.outside s.objects) [
    | none ↦ none
    | some (none, objects) ↦ some (none, record s { objects = objects })
    | some (some x, objects) ↦ process_insert x (record s { objects = objects })
  ]

  abbrev deleted : ℕ → Inserted D → Bool × Inserted D
  deleted x s = (true, record s { outside = p.context.delete_object x s.outside })

  -- The branch of a permanent error: whether the object is done with.
  unfoldable pub insert_failed : ℕ → UpstreamRequest → Response → Inserted D → Bool × Inserted D
  unfolding add_inserted
  insert_failed x request response s = elim p.transcoder.should_retry_after_failed_update [
    | none ↦ deleted x s
    | some f ↦
        let (again, d) = f x request response [] s.outside in
        let (added, s') = add_inserted x (record s { outside = d }) in
        if again then (not added, s') else deleted x (record s { outside = d })
  ]

  abbrev expired : ℕ → UpstreamRequest → D → D
  expired x request d = elim p.transcoder.request_expired_for_object [
    | none ↦ d
    | some f ↦ f x request.keys d
  ]

  -- What the completion handler does, before the object is finished or failed, if the object is not
  -- ignored.
  unfoldable pub handle_response : ℕ → UpstreamRequest → Response → Inserted D → Bool × Inserted D
  unfolding insert_failed
  handle_response x request response s = elim response.result [
    | ResponseStatus.success ↦ (
      true,
      record s {
        outside =
            p.transcoder.update_inserted_object x
              (record request { transport_response = some response }) response s.outside;
      },
    )
    | ResponseStatus.permanent_error ↦ insert_failed x request response s
    | ResponseStatus.try_again_later ↦ (false, s)
    | ResponseStatus.expired ↦ (true, record s { outside = expired x request s.outside })
    | ResponseStatus.temporary_error ↦ (true, s)
  ]

  abbrev pub ended : ℕ → Bool × Inserted D → Option (Inserted D)
  ended x (true, s) = some (record s { objects = did_finish_object x s.objects })
  ended x (false, s) = elim (did_fail_object x s.objects) [
    | none ↦ none
    | some objects ↦ some (record s { objects = objects })
  ]

  unfoldable pub process_response :
      ℕ → UpstreamRequest → Response → Inserted D → Option (Inserted D)
  unfolding handle_response
  process_response x request response s = ended x (
      if member x s.ignored
      then (true, record s { ignored = minus s.ignored (x ∷ []) })
      else handle_response x request response s)

-- ZMUpstreamInsertedObjectSync, as its header declares it.
pub record UpstreamInsertedObjectSync (D : Type 0) : Type 0 where
  pub has_currently_running : Parts D → Inserted D → Bool
  pub start : UpstreamTranscoder D → Context D → D → Parts D × Inserted D
  pub start_with_filter :
      UpstreamTranscoder D → Context D → Option (D → ℕ → Bool) → D → Parts D × Inserted D
  pub next : Parts D → Inserted D → Option (Option (UpstreamRequest × ℕ) × Inserted D)

abbrev pub upstream_inserted_object_sync : {D : Type 0} → UpstreamInsertedObjectSync D
upstream_inserted_object_sync = record {
  has_currently_running = has_currently_running_requests;
  start = init;
  start_with_filter = init_with_filter;
  next = next_request;
}
