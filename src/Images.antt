-- ===== src/Images.antt =====
-- ZMImagePreprocessingTracker.m in Source/Synchronization/ImagePreprocessing/: images that are
-- preprocessed before they are sent. An owner of an image is its number; the operations that the
-- preprocessor makes for one run on a queue of their own, and `completed` is when they are done.
pub mod Laws
use zmessaging_cocoa.Base.{
  ℕ, Bool, true, false, not, ◌&&◌, ◌||◌, Option, none, some, List, [], ◌∷◌, ◌++◌, if◌then◌else◌,
  ltb, length,
}
use zmessaging_cocoa.Syncs.RemoteIdentifiers.{member, union, minus}

-- The preprocessor, the class of the owners, its sort and its predicates; `D` is what owners keep.
pub record Preprocessing (D : Type 0) : Type 0 where
  pub operations : D → ℕ → Option (List ℕ)
  pub is_of_class : ℕ → Bool
  pub needs_preprocessing : D → ℕ → Bool
  pub fetch_predicate : D → ℕ → Bool
  pub sort : D → List ℕ → List ℕ
  pub processing_did_finish : ℕ → D → D
  pub set_image_data : ℕ → ℕ → D → D

pub record Tracker (D : Type 0) : Type 0 where
  pub needing : List ℕ  -- imageOwnersThatNeedPreprocessing, an ordered set
  pub being : List ℕ  -- imageOwnersBeingPreprocessed
  pub queued : List ℕ  -- the operations, newest last
  pub has_preprocessor : Bool
  pub outside : D

unfoldable pub init : {D : Type 0} → D → Tracker D
init d = record { needing = []; being = []; queued = []; has_preprocessor = true; outside = d }

unfoldable pub tear_down : {D : Type 0} → Tracker D → Tracker D
tear_down s = record s { queued = []; has_preprocessor = false }

unfoldable pub has_outstanding_items : {D : Type 0} → Tracker D → Bool
has_outstanding_items s = ltb 0 (length s.needing) || ltb 0 (length s.being)

module _ {D : Type 0} (p : Preprocessing D) where
  -- A preprocessor that is gone gives no operations.
  abbrev pub operations_for : Tracker D → ℕ → Option (List ℕ)
  operations_for s x = if s.has_preprocessor then p.operations s.outside x else none

  abbrev failed : ℕ → Tracker D → Tracker D
  failed x s = record s { outside = p.processing_did_finish x s.outside }

  abbrev enqueued : ℕ → List ℕ → Tracker D → Tracker D
  enqueued x ops s = record s { being = union s.being (x ∷ []); queued = s.queued ++ ops }

  -- `enqueueNext`, of the owner that was first.
  unfoldable pub enqueue_owner : ℕ → Tracker D → Tracker D
  enqueue_owner x s = elim (operations_for s x) [ none ↦ failed x s | some ops ↦ enqueued x ops s ]

  -- `enqueueAll`: each round takes the first owner out.
  unfoldable pub enqueue_owners : List ℕ → Tracker D → Tracker D
  unfolding enqueue_owner
  enqueue_owners [] s = s
  enqueue_owners (x ∷ xs) s = enqueue_owners xs (enqueue_owner x (record s { needing = xs }))

  unfoldable pub enqueue_all : Tracker D → Tracker D
  unfolding enqueue_owners
  enqueue_all s = enqueue_owners s.needing s

  -- `addImageOwners:`
  unfoldable pub add_owners : List ℕ → Tracker D → Tracker D
  add_owners [] s = s
  add_owners (x ∷ xs) s = add_owners xs (
      if p.is_of_class x
        && p.needs_preprocessing s.outside x
        && not (member x s.being)
        && not (member x s.needing)
      then record s { needing = s.needing ++ x ∷ [] }
      else s)

  unfoldable pub objects_did_change : List ℕ → Tracker D → Tracker D
  unfolding add_owners enqueue_all
  objects_did_change xs s = enqueue_all (add_owners xs s)

  abbrev filtered : D → List ℕ → List ℕ
  filtered d [] = []
  filtered d (x ∷ xs) =
      let rest = filtered d xs in if p.needs_preprocessing d x then x ∷ rest else rest

  unfoldable pub add_tracked_objects : List ℕ → Tracker D → Tracker D
  unfolding enqueue_all
  add_tracked_objects xs s =
      enqueue_all
        (record s { needing = union s.needing (p.sort s.outside (filtered s.outside xs)) })

  -- `preprocessingComleteOperationForImageOwner:`, when the operation runs.
  unfoldable pub preprocessing_complete : ℕ → Tracker D → Tracker D
  preprocessing_complete x s = record s { outside = p.processing_did_finish x s.outside }

  -- `completedDownsampleOperation:imageOwner:`, of an operation with its data, format and properties.
  unfoldable pub completed_downsample : ℕ → ℕ → Tracker D → Tracker D
  completed_downsample operation x s = record s { outside = p.set_image_data operation x s.outside }

  -- The operations of an owner are done.
  unfoldable pub completed : ℕ → Tracker D → Tracker D
  completed x s = record s { being = minus s.being (x ∷ []) }

-- ZMImagePreprocessingTracker, as its headers declare it, and what they add for tests.
pub record PreprocessingTracker (D : Type 0) : Type 0 where
  pub start : D → Tracker D
  pub tear_down_tracker : Tracker D → Tracker D

pub record PreprocessingTesting (D : Type 0) : Type 0 where
  pub that_need_preprocessing : Tracker D → List ℕ
  pub being_preprocessed : Tracker D → List ℕ

abbrev pub preprocessing_tracker : {D : Type 0} → PreprocessingTracker D
preprocessing_tracker = record { start = init; tear_down_tracker = tear_down }

abbrev pub preprocessing_testing : {D : Type 0} → PreprocessingTesting D
preprocessing_testing = record {
  that_need_preprocessing = λ s. s.needing;
  being_preprocessed = λ s. s.being;
}
