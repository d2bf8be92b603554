-- ===== src/Syncs/Downstream.antt =====
-- ZMDownstreamObjectSync.m: objects that are downloaded one by one, over ZMSyncOperationSet. Objects
-- are numbers; the transcoder, the predicates and the objects act on and are read from states `D`.
-- The loop of `nextRequest` is on fuel, one more than the objects that are pending.
pub mod Loop
pub mod Pending
use zmessaging_cocoa.Base.{
  ℕ, zero, suc, Bool, true, not, ◌&&◌, Option, none, some, List, [], ◌∷◌, if◌then◌else◌, ltb,
  length,
}
use zmessaging_cocoa.States.World.{ResponseStatus}
use zmessaging_cocoa.Syncs.OperationSet.{
  OperationSet, add_object, next_object, did_start, did_finish, remove_updated, remove_object,
}
use zmessaging_cocoa.Syncs.OperationSet as Operations

-- ZMDownstreamTranscoder.
pub record DownstreamTranscoder (D : Type 0) : Type 0 where
  pub request_for_fetching_object : ℕ → D → Option ℕ × D
  pub delete_object : ℕ → D → D
  pub update_object : ℕ → D → D

-- ZMContextChangeTracker, over the states `S` of a tracker; the fetch request is the test that its
-- predicate makes.
pub record ContextChangeTracker (S : Type 0) : Type 0 where
  pub objects_did_change : List ℕ → S → S
  pub fetch_request_for_tracked_objects : S → ℕ → Bool
  pub add_tracked_objects : List ℕ → S → S

-- ZMOutstandingItems.
pub record OutstandingItems (S : Type 0) : Type 0 where
  pub has_outstanding_items : S → Bool

-- A search for the first object of the second list that is not in the first one.
abbrev pub Search : Type 0
Search = List ℕ → List ℕ → Option ℕ

-- An entity of the data model: its objects, its flag `needsToBeUpdatedFromBackend` and what it
-- sorts by.
pub record Entity (D : Type 0) : Type 0 where
  pub has_object : ℕ → Bool
  pub needs_to_be_updated : D → ℕ → Bool
  pub sort_descriptors_for_updating : Option Search

-- The managed object context and the utilities' search.
pub record Context (D : Type 0) : Type 0 where
  pub is_zombie : D → ℕ → Bool
  pub first_not_in : Search

-- What the sync is made of besides its set.
pub record Parts (D : Type 0) : Type 0 where
  pub transcoder : DownstreamTranscoder D
  pub context : Context D
  pub entity : Entity D
  pub is_to_download : D → ℕ → Bool  -- predicateForObjectsToDownload
  pub filter : Option (D → ℕ → Bool)

pub record Downstream (D : Type 0) : Type 0 where
  pub objects_to_download : OperationSet
  pub outside : D

module _ {D : Type 0} (t : DownstreamTranscoder D) (c : Context D) (e : Entity D) where
  -- `initWithTranscoder:operationSet:entityName:...`, of arguments that are not nil.
  unfoldable pub init :
      OperationSet → (D → ℕ → Bool) → Option (D → ℕ → Bool) → D → Parts D × Downstream D
  init set predicate filter d = (
    record { transcoder = t; context = c; entity = e; is_to_download = predicate; filter = filter },
    record {
      objects_to_download = record set { sort_descriptors = e.sort_descriptors_for_updating };
      outside = d;
    },
  )

  unfoldable pub init_with_filter :
      (D → ℕ → Bool) → Option (D → ℕ → Bool) → D → Parts D × Downstream D
  unfolding init
  init_with_filter predicate filter d = init Operations.init predicate filter d

  unfoldable pub init_with_predicate : (D → ℕ → Bool) → D → Parts D × Downstream D
  unfolding init
  init_with_predicate predicate d = init Operations.init predicate none d

  unfoldable pub init_for_updates : D → Parts D × Downstream D
  unfolding init_with_predicate
  init_for_updates d = init_with_predicate e.needs_to_be_updated d

module _ {D : Type 0} (p : Parts D) where
  abbrev passes_filter : D → ℕ → Bool
  passes_filter d x = elim p.filter [ none ↦ true | some f ↦ f d x ]

  abbrev pub add_one : ℕ → Downstream D → Downstream D
  add_one x s = record s { objects_to_download = add_object x s.objects_to_download }

  unfoldable pub add_tracked_objects : List ℕ → Downstream D → Downstream D
  add_tracked_objects [] s = s
  add_tracked_objects (x ∷ xs) s =
      add_tracked_objects xs (if passes_filter s.outside x then add_one x s else s)

  unfoldable pub needs_to_sync_object : D → ℕ → Bool
  needs_to_sync_object d x = p.is_to_download d x && passes_filter d x

  unfoldable pub objects_did_change : List ℕ → Downstream D → Downstream D
  unfolding needs_to_sync_object
  objects_did_change [] s = s
  objects_did_change (x ∷ xs) s =
      objects_did_change xs
        (if p.entity.has_object x && needs_to_sync_object s.outside x then add_one x s else s)

  unfoldable pub has_outstanding_items : Downstream D → Bool
  has_outstanding_items s = ltb 0 (Operations.count s.objects_to_download)

  -- One more object is out of the set.
  abbrev pub dropped : ℕ → D → Downstream D → Downstream D
  dropped x d s = record {
    objects_to_download = remove_object x s.objects_to_download;
    outside = d;
  }

  abbrev pub begun : ℕ → D → Downstream D → Downstream D
  begun x d s = record {
    objects_to_download = (did_start (λ y k. none) [] x s.objects_to_download).1;
    outside = d;
  }

  -- The loop of `nextRequest`: the request with its object; out of fuel is none.
  unfoldable pub request_loop : ℕ → Downstream D → Option (Option (ℕ × ℕ) × Downstream D)
  request_loop zero s = none
  request_loop (suc n) s = elim (next_object p.context.first_not_in none s.objects_to_download) [
    | none ↦ some (none, s)
    | some x ↦
        let (request, after) = p.transcoder.request_for_fetching_object x s.outside in
        let unwanted = request_loop n (dropped x s.outside s) in
        let refused = request_loop n (dropped x after s) in
        if not (p.is_to_download s.outside x)
        then unwanted
        else (elim request [ none ↦ refused | some r ↦ some (some (r, x), begun x after s) ])
  ]

  unfoldable pub next_request : Downstream D → Option (Option (ℕ × ℕ) × Downstream D)
  unfolding request_loop
  next_request s = request_loop (suc (length s.objects_to_download.pending)) s

  abbrev removed_and_deleted : ℕ → Downstream D → Downstream D
  removed_and_deleted x s = record {
    objects_to_download = remove_object x s.objects_to_download;
    outside = p.transcoder.delete_object x s.outside;
  }

  -- `processResponse:forObject:token:transcoder:`; the token has no keys.
  unfoldable pub process_response : ResponseStatus → ℕ → Downstream D → Downstream D
  process_response result x s =
      let (keys, ended) = did_finish (λ y k. none) [] x result s.objects_to_download in
      let finished = record s { objects_to_download = ended } in
      let updated = remove_updated x [] keys ended in
      (elim result [
        | ResponseStatus.try_again_later ↦ finished
        | ResponseStatus.success ↦ record {
          objects_to_download = updated;
          outside =
              if p.context.is_zombie s.outside x
              then s.outside
              else p.transcoder.update_object x s.outside;
        }
        | ResponseStatus.temporary_error ↦ removed_and_deleted x finished
        | ResponseStatus.permanent_error ↦ removed_and_deleted x finished
        | ResponseStatus.expired ↦ removed_and_deleted x finished
      ])

  abbrev pub context_change_tracker : ContextChangeTracker (Downstream D)
  context_change_tracker = record {
    objects_did_change = objects_did_change;
    fetch_request_for_tracked_objects =
        λ s x. p.entity.has_object x && p.is_to_download s.outside x;
    add_tracked_objects = add_tracked_objects;
  }

  abbrev pub outstanding_items : OutstandingItems (Downstream D)
  outstanding_items = record { has_outstanding_items = has_outstanding_items }

-- ZMDownstreamObjectSync, as its header declares it.
pub record DownstreamObjectSync (D : Type 0) : Type 0 where
  pub start_for_updates : DownstreamTranscoder D → Context D → Entity D → D → Parts D × Downstream D
  pub start_with_predicate :
      DownstreamTranscoder D → Context D → Entity D → (D → ℕ → Bool) → D → Parts D × Downstream D
  pub start_with_filter :
      DownstreamTranscoder D
      → Context D
      → Entity D
      → (D → ℕ → Bool)
      → Option (D → ℕ → Bool)
      → D
      → Parts D × Downstream D
  pub start_with_set :
      DownstreamTranscoder D
      → Context D
      → Entity D
      → OperationSet
      → (D → ℕ → Bool)
      → Option (D → ℕ → Bool)
      → D
      → Parts D × Downstream D
  pub next : Parts D → Downstream D → Option (Option (ℕ × ℕ) × Downstream D)
  pub predicate_for_objects_to_download : Parts D → D → ℕ → Bool
  pub entity_of : Parts D → Entity D

abbrev pub downstream_object_sync : {D : Type 0} → DownstreamObjectSync D
downstream_object_sync = record {
  start_for_updates = init_for_updates;
  start_with_predicate = init_with_predicate;
  start_with_filter = init_with_filter;
  start_with_set = init;
  next = next_request;
  predicate_for_objects_to_download = λ p. p.is_to_download;
  entity_of = λ p. p.entity;
}
