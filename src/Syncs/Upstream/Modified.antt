-- ===== src/Syncs/Upstream/Modified.antt =====
-- ZMUpstreamModifiedObjectSync.m: the locally modified keys of objects are sent object by object,
-- over ZMLocallyModifiedObjectSet and ZMDependentObjects. What the transcoder reads and changes is
-- the state of the set's objects; a failed assertion is none.
pub mod Laws
use zmessaging_cocoa.Base.{
  ℕ, Bool, true, false, not, ◌&&◌, Option, none, some, List, [], ◌∷◌, if◌then◌else◌,
}
use zmessaging_cocoa.States.World.{ResponseStatus}
use zmessaging_cocoa.Syncs.RemoteIdentifiers.{is_empty}
use zmessaging_cocoa.Syncs.Modified.{Objects}
use zmessaging_cocoa.Syncs.Modified.Set.{
  ModifiedSet, ObjectWithKeys, SetToken, add_possible_object, any_object_to_sync, did_start_keys,
  keys_to_parse, did_not_finish, did_synchronize, did_fail_to_synchronize, has_entries,
}
use zmessaging_cocoa.Syncs.Dependents.{Table, add_dependent, any_dependency}
use zmessaging_cocoa.Syncs.Upstream.{
  Response, UpstreamRequest, UpstreamTranscoder, dependency_of, refuses_request, check_dependency,
}

-- The entity, its class and what the data model library does to an object.
pub record Entity (M : Type 0) : Type 0 where
  pub objects : Objects M
  pub has_object : ℕ → Bool
  pub needs_update : M → ℕ → Bool  -- predicateForObjectsThatNeedToBeUpdatedUpstream
  pub set_modified : List ℕ → ℕ → M → M  -- setLocallyModifiedKeys:
  pub set_needs_refetch : ℕ → M → M  -- needsToBeUpdatedFromBackend = YES

pub record Parts (M : Type 0) : Type 0 where
  pub transcoder : UpstreamTranscoder M
  pub entity : Entity M
  pub update_predicate : M → ℕ → Bool
  pub filter : Option (M → ℕ → Bool)

-- The state of ZMUpstreamModifiedObjectSync.
pub record Updates (M : Type 0) : Type 0 where
  pub updated : ModifiedSet M
  pub waiting : Option Table  -- updatedObjectsWithDependencies

module _ {M : Type 0} (t : UpstreamTranscoder M) (e : Entity M) where
  abbrev fresh_set : Option (List ℕ) → M → ModifiedSet M
  fresh_set keys m = record {
    objects = m;
    tracked_keys = keys;
    statuses = [];
    entries = [];
    next_status = 0;
  }

  -- `initWithTranscoder:...locallyModifiedObjectSet:`, the one that the others call.
  unfoldable pub init_with_set :
      Option (M → ℕ → Bool)
      → Option (M → ℕ → Bool)
      → Option (List ℕ)
      → Option (ModifiedSet M)
      → M
      → Parts M × Updates M
  init_with_set predicate filter keys set m = (
    record {
      transcoder = t;
      entity = e;
      update_predicate = elim predicate [ none ↦ e.needs_update | some f ↦ f ];
      filter = filter;
    },
    record {
      updated = elim set [ none ↦ fresh_set keys m | some s ↦ s ];
      waiting = elim t.dependent_object_needing_update [ none ↦ none | some f ↦ some [] ];
    },
  )

  unfoldable pub init_with_filter :
      Option (M → ℕ → Bool) → Option (M → ℕ → Bool) → Option (List ℕ) → M → Parts M × Updates M
  unfolding init_with_set
  init_with_filter predicate filter keys m = init_with_set predicate filter keys none m

  unfoldable pub init_with_keys : Option (List ℕ) → M → Parts M × Updates M
  unfolding init_with_set
  init_with_keys keys m = init_with_set none none keys none m

  unfoldable pub init : M → Parts M × Updates M
  unfolding init_with_set
  init m = init_with_set none none none none m

-- A request is out: its object with the keys, and the token.
pub record Sent : Type 0 where
  pub request : UpstreamRequest
  pub object : ObjectWithKeys
  pub token : SetToken

module _ {M : Type 0} (p : Parts M) where
  unfoldable pub passes_filter : M → ℕ → Bool
  passes_filter m x = elim p.filter [ none ↦ true | some f ↦ f m x ]

  unfoldable pub should_be_synced : M → ℕ → Bool
  unfolding passes_filter
  should_be_synced m x = p.update_predicate m x && passes_filter m x

  abbrev with_set : Option (ModifiedSet M) → Option Table → Option (Updates M)
  with_set none waiting = none
  with_set (some set) waiting = some (record { updated = set; waiting = waiting })

  abbrev possible : ℕ → ModifiedSet M → Option (ModifiedSet M)
  possible x set = add_possible_object p.entity.objects x set

  -- `addUpdatedObject:`
  unfoldable pub add_updated : ℕ → Updates M → Option (Updates M)
  add_updated x s = elim s.waiting [
    | none ↦ with_set (possible x s.updated) none
    | some table ↦ (elim (dependency_of p.transcoder x s.updated.objects) [
      | none ↦ with_set (possible x s.updated) (some table)
      | some d ↦ some (record s { waiting = some (add_dependent x d table) })
    ])
  ]

  abbrev add_if_set : ℕ → Option (ModifiedSet M) → Option (ModifiedSet M)
  add_if_set x none = none
  add_if_set x (some set) = possible x set

  unfoldable pub check_updated : ℕ → Updates M → Option (Updates M)
  unfolding check_dependency
  check_updated d s =
      let (waiting, set) =
        check_dependency (λ x. dependency_of p.transcoder x s.updated.objects) add_if_set d
          s.waiting (some s.updated) in
      with_set set waiting

  unfoldable pub add_tracked_objects : List ℕ → Updates M → Option (Updates M)
  unfolding add_updated passes_filter
  add_tracked_objects [] s = some s
  add_tracked_objects (x ∷ xs) s =
      elim (if passes_filter s.updated.objects x then add_updated x s else some s) [
        | none ↦ none
        | some s' ↦ add_tracked_objects xs s'
      ]

  unfoldable pub objects_did_change : List ℕ → Updates M → Option (Updates M)
  unfolding add_updated check_updated should_be_synced
  objects_did_change [] s = some s
  objects_did_change (x ∷ xs) s =
      elim (if p.entity.has_object x && should_be_synced s.updated.objects x
        then add_updated x s
        else some s) [
          | none ↦ none
          | some s' ↦ (elim (check_updated x s') [
            | none ↦ none
            | some s'' ↦ objects_did_change xs s''
          ])
        ]

  unfoldable pub has_outstanding_items : Updates M → Bool
  has_outstanding_items s = has_entries s.updated.entries

  abbrev depends : Option Table → ℕ → Option ℕ
  depends none x = none
  depends (some table) x = any_dependency x table

  abbrev if_ready : Updates M → ObjectWithKeys → Option ObjectWithKeys
  if_ready s x = elim (depends s.waiting x.object) [
    | some d ↦ none
    | none ↦ if should_be_synced s.updated.objects x.object then some x else none
  ]

  -- `nextObjectToSync`
  unfoldable pub next_object : Updates M → Option ObjectWithKeys × Updates M
  unfolding should_be_synced
  next_object s =
      let (found, set) = any_object_to_sync p.entity.objects s.updated in
      let s' = record s { updated = set } in
      (elim found [ none ↦ none | some x ↦ if_ready s' x ], s')

  abbrev begun : UpstreamRequest → ObjectWithKeys → M → Updates M → Option Sent × Updates M
  begun r x m s =
      let (token, set) =
        did_start_keys p.entity.objects r.keys x (record (s.updated) { objects = m }) in
      (some (record { request = r; object = x; token = token }), record s { updated = set })

  -- `processNextUpdate`, of the object that was found; without a request an assertion fails.
  unfoldable pub process_update : ObjectWithKeys → Updates M → Option (Option Sent × Updates M)
  process_update x s =
      let m = s.updated.objects in
      let (request, after) = p.transcoder.request_for_updating_object x.object x.keys_to_sync m in
      if refuses_request p.transcoder x.object x.keys_to_sync m
      then some (none, s)
      else (elim request [ none ↦ none | some r ↦ some (begun r x after s) ])

  unfoldable pub next_request : Updates M → Option (Option Sent × Updates M)
  unfolding next_object process_update
  next_request s =
      let (found, s') = next_object s in
      elim found [ none ↦ some (none, s') | some x ↦ process_update x s' ]

  abbrev on_objects : (M → M) → Updates M → Updates M
  on_objects f s = record s { updated = record (s.updated) { objects = f s.updated.objects } }

  abbrev on_set : (ModifiedSet M → ModifiedSet M) → Updates M → Updates M
  on_set f s = record s { updated = f s.updated }

  abbrev failed : Sent → Updates M → Updates M
  failed sent s = on_set (did_fail_to_synchronize p.entity.objects sent.token) s

  abbrev unfinished : Sent → Updates M → Updates M
  unfinished sent s = on_set (did_not_finish p.entity.objects sent.token) s

  unfoldable pub update_succeeded : Sent → Response → List ℕ → Updates M → Updates M
  update_succeeded sent response keys s =
      let (more, m) =
        p.transcoder.update_updated_object sent.object.object sent.request.user_info response keys
          s.updated.objects in
      let s' = on_objects (λ _. m) s in
      if not (is_empty keys) && more
      then unfinished sent s'
      else on_set (did_synchronize p.entity.objects sent.token) s'

  abbrev expired : Sent → M → M
  expired sent m = elim p.transcoder.request_expired_for_object [
    | none ↦ m
    | some f ↦ f sent.object.object sent.object.keys_to_sync m
  ]

  abbrev refetched : Sent → M → M
  refetched sent m = elim (p.transcoder.object_to_refetch_for_failed_update sent.object.object m) [
    | none ↦ m
    | some x ↦ p.entity.set_needs_refetch x m
  ]

  abbrev retries : Sent → Response → List ℕ → M → Bool × M
  retries sent response keys m = elim p.transcoder.should_retry_after_failed_update [
    | none ↦ (false, m)
    | some f ↦ f sent.object.object sent.request response keys m
  ]

  unfoldable pub update_failed : Sent → Response → List ℕ → Updates M → Option (Updates M)
  unfolding add_updated
  update_failed sent response keys s =
      let (again, m) = retries sent response keys s.updated.objects in
      let s' = failed sent (on_objects (λ _. m) s) in
      if again
      then add_updated sent.object.object
          (on_objects (p.entity.set_modified sent.request.keys sent.object.object) s')
      else some (on_objects (refetched sent) s')

  -- The completion handler.
  unfoldable pub process_response : Sent → Response → Updates M → Option (Updates M)
  unfolding update_succeeded update_failed
  process_response sent response s =
      let (keys, set) = keys_to_parse p.entity.objects sent.token s.updated in
      let s' = record s { updated = set } in
      elim response.result [
        | ResponseStatus.success ↦ some (update_succeeded sent response keys s')
        | ResponseStatus.temporary_error ↦ some (unfinished sent s')
        | ResponseStatus.try_again_later ↦ some (unfinished sent s')
        | ResponseStatus.expired ↦ some (on_objects (expired sent) (failed sent s'))
        | ResponseStatus.permanent_error ↦ update_failed sent response keys s'
      ]

-- ZMUpstreamModifiedObjectSync, as its headers declare it.
pub record UpstreamModifiedObjectSync (M : Type 0) : Type 0 where
  pub start : UpstreamTranscoder M → Entity M → M → Parts M × Updates M
  pub start_with_keys : UpstreamTranscoder M → Entity M → Option (List ℕ) → M → Parts M × Updates M
  pub start_with_filter :
      UpstreamTranscoder M
      → Entity M
      → Option (M → ℕ → Bool)
      → Option (M → ℕ → Bool)
      → Option (List ℕ)
      → M
      → Parts M × Updates M
  pub next : (p : Parts M) → Updates M → Option (Option Sent × Updates M)

-- Its category for tests.
pub record UpstreamModifiedTesting (M : Type 0) : Type 0 where
  pub updated_objects : Updates M → ModifiedSet M
  pub start_with_set :
      UpstreamTranscoder M
      → Entity M
      → Option (M → ℕ → Bool)
      → Option (M → ℕ → Bool)
      → Option (List ℕ)
      → Option (ModifiedSet M)
      → M
      → Parts M × Updates M

abbrev pub upstream_modified_object_sync : {M : Type 0} → UpstreamModifiedObjectSync M
upstream_modified_object_sync = record {
  start = init;
  start_with_keys = init_with_keys;
  start_with_filter = init_with_filter;
  next = next_request;
}

abbrev pub upstream_modified_testing : {M : Type 0} → UpstreamModifiedTesting M
upstream_modified_testing = record {
  updated_objects = λ s. s.updated;
  start_with_set = init_with_set;
}
