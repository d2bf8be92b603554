-- ===== src/Syncs/Upstream.antt =====
-- ZMUpstreamTranscoder.h, ZMUpstreamRequest.m, and what ZMUpstreamInsertedObjectSync.m and
-- ZMUpstreamModifiedObjectSync.m share: objects that wait until others are updated. Objects, keys,
-- transport requests and payloads are numbers; the transcoder reads and changes states `D`.
pub mod Inserted
pub mod Modified
use zmessaging_cocoa.Base.{
  ℕ, Bool, true, false, Option, none, some, List, [], ◌∷◌, if◌then◌else◌, ◌==◌,
}
use zmessaging_cocoa.States.World.{ResponseStatus}
use zmessaging_cocoa.Syncs.Dependents.{Table, tracked, set_tracked, remove_tracked, add_dependent}

-- What a transport response is to the syncs.
pub record Response : Type 0 where
  pub result : ResponseStatus
  pub payload : ℕ

-- ZMUpstreamRequest.
pub record UpstreamRequest : Type 0 where
  pub keys : List ℕ
  pub transport_request : ℕ
  pub transport_response : Option Response
  pub user_info : List (ℕ × ℕ)

abbrev or_empty : {A : Type 0} → Option (List A) → List A
or_empty none = []
or_empty (some xs) = xs

-- `initWithKeys:transportRequest:userInfo:`
unfoldable pub request_with_info : Option (List ℕ) → ℕ → Option (List (ℕ × ℕ)) → UpstreamRequest
request_with_info keys request info = record {
  keys = or_empty keys;
  transport_request = request;
  transport_response = none;
  user_info = or_empty info;
}

unfoldable pub request_with_keys : Option (List ℕ) → ℕ → UpstreamRequest
unfolding request_with_info
request_with_keys keys request = request_with_info keys request none

unfoldable pub request_without_keys : ℕ → UpstreamRequest
unfolding request_with_info
request_without_keys request = request_with_info none request none

-- ZMUpstreamTranscoder; an optional method that is not implemented is none.
pub record UpstreamTranscoder (D : Type 0) : Type 0 where
  pub should_process_updates_before_inserts : Bool
  pub request_for_updating_object : ℕ → List ℕ → D → Option UpstreamRequest × D
  pub request_for_inserting_object : ℕ → Option (List ℕ) → D → Option UpstreamRequest × D
  pub update_inserted_object : ℕ → UpstreamRequest → Response → D → D
  pub update_updated_object : ℕ → List (ℕ × ℕ) → Response → List ℕ → D → Bool × D
  pub object_to_refetch_for_failed_update : ℕ → D → Option ℕ
  pub dependent_object_needing_update : Option (ℕ → D → Option ℕ)
  pub request_expired_for_object : Option (ℕ → List ℕ → D → D)
  pub should_create_request_to_sync : Option (ℕ → List ℕ → D → Bool)
  pub should_retry_after_failed_update :
      Option (ℕ → UpstreamRequest → Response → List ℕ → D → Bool × D)

-- What the object still depends on; nil without the method.
abbrev pub dependency_of : {D : Type 0} → UpstreamTranscoder D → ℕ → D → Option ℕ
dependency_of t x d = elim t.dependent_object_needing_update [ none ↦ none | some f ↦ f x d ]

abbrev pub refuses_request : {D : Type 0} → UpstreamTranscoder D → ℕ → List ℕ → D → Bool
refuses_request t x keys d = elim t.should_create_request_to_sync [
  | none ↦ false
  | some f ↦ if f x keys d then false else true
]

module _ {S : Type 0} (dependency : ℕ → Option ℕ) (free : ℕ → S → S) where
  -- The block of `checkForUpdatedDependency:` on the dependants one after the other: one that depends
  -- on nothing is freed, one that depends on something else is moved. The others remain.
  unfoldable pub move_dependents : ℕ → List ℕ → Table → S → List ℕ × Table × S
  move_dependents d [] t s = ([], t, s)
  move_dependents d (x ∷ xs) t s = elim (dependency x) [
    | none ↦ move_dependents d xs t (free x s)
    | some e ↦
        let (rest, t', s') = move_dependents d xs t s in
        let moved = move_dependents d xs (add_dependent x e t) s in
        if e == d then (x ∷ rest, t', s') else moved
  ]

  abbrev keep_remaining : ℕ → List ℕ × Table × S → Table × S
  keep_remaining d ([], t, s) = (remove_tracked d t, s)
  keep_remaining d (x ∷ xs, t, s) = (set_tracked d (x ∷ xs) t, s)

  -- `checkForUpdatedDependency:`, in a table that may be missing.
  unfoldable pub check_dependency : ℕ → Option Table → S → Option Table × S
  unfolding move_dependents
  check_dependency d none s = (none, s)
  check_dependency d (some t) s = elim (tracked d t) [
    | none ↦ (some t, s)
    | some xs ↦ let (t', s') = keep_remaining d (move_dependents d xs t s) in (some t', s')
  ]
