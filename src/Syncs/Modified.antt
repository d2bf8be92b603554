-- ===== src/Syncs/Modified.antt =====
-- ZMLocallyModifiedObjectSyncStatus.m and ZMLocallyModifiedObjectSet.m: which locally modified keys
-- of which objects are still to be sent. Objects and keys are numbers. What the objects keep is the
-- data model library's: the record `Objects`, over its states `M`. A status object is its number;
-- those that were ever made stay in `statuses`, for tokens refer to them, and `entries` is the
-- dictionary from objects to statuses. A failed assertion is `none`.
pub mod Laws
pub mod Set
use zmessaging_cocoa.Base.{
  ℕ, Bool, not, ◌&&◌, Option, none, some, List, [], ◌∷◌, if◌then◌else◌, same?, ◌≡◌,
}
use zmessaging_cocoa.Syncs.RemoteIdentifiers.{member, union, minus, is_empty}

pub record Objects (M : Type 0) : Type 0 where
  pub modified : M → ℕ → List ℕ  -- keysThatHaveLocalModifications
  pub value : M → ℕ → ℕ → Option ℕ  -- valueForKey:
  pub tracked_keys : M → ℕ → List ℕ  -- keysTrackedForLocalModifications
  pub reset_modified : List ℕ → ℕ → M → M  -- resetLocallyModifiedKeys:

-- What the source relies on: the keys are no longer modified, and other keys as before.
pub record IsObjects {M : Type 0} (o : Objects M) : Type 0 where
  pub resets :
      (ks : List ℕ) (x k : ℕ) (m : M)
      → member k (o.modified (o.reset_modified ks x m) x)
        ≡ (member k (o.modified m x) && not (member k ks))

-- ZMLocallyModifiedObjectSyncStatusToken.
pub record Token : Type 0 where
  pub object : ℕ
  pub previous_values : List (ℕ × Option ℕ)

-- ZMLocallyModifiedObjectSyncStatus.
pub record SyncStatus : Type 0 where
  pub object : ℕ
  pub tracked : List ℕ
  pub in_progress : List ℕ

-- The interface of ZMLocallyModifiedObjectSyncStatus, over the states `S` of a status and `M` of the
-- objects.
pub record ModifiedStatus (S M : Type 0) : Type 0 where
  pub object : S → ℕ
  pub keys_to_synchronize : M → S → List ℕ
  pub is_done : M → S → Bool
  pub status_with_object : ℕ → List ℕ → M → Option S
  pub start_synchronizing_keys : M → List ℕ → S → Token × S
  pub changed_keys_and_finish : M → Token → S → List ℕ × S
  pub reset_locally_modified_keys : Token → S → M → S × M

abbrev fresh_status : ℕ → List ℕ → SyncStatus
fresh_status x tracked = record { object = x; tracked = tracked; in_progress = [] }

unfoldable pub intersect : List ℕ → List ℕ → List ℕ
intersect [] ys = []
intersect (x ∷ xs) ys = let rest = intersect xs ys in if member x ys then x ∷ rest else rest

unfoldable pub token_keys : List (ℕ × Option ℕ) → List ℕ
token_keys [] = []
token_keys ((k, v) ∷ t) = k ∷ token_keys t

unfoldable pub values_at : (ℕ → Option ℕ) → List ℕ → List (ℕ × Option ℕ)
values_at value [] = []
values_at value (k ∷ ks) = (k, value k) ∷ values_at value ks

-- `keysThatHaveNewValues`
unfoldable pub new_values : (ℕ → Option ℕ) → List (ℕ × Option ℕ) → List ℕ
new_values value [] = []
new_values value ((k, v) ∷ t) =
    let rest = new_values value t in if same? (value k) v then rest else k ∷ rest

module _ {M : Type 0} (o : Objects M) where
  unfoldable pub keys_to_synchronize : M → SyncStatus → List ℕ
  keys_to_synchronize m s = minus (intersect s.tracked (o.modified m s.object)) s.in_progress

  unfoldable pub status_is_done : M → SyncStatus → Bool
  status_is_done m s = is_empty (keys_to_synchronize m s) && is_empty s.in_progress

  -- `initWithObject:trackedKeys:`, without its assertions: nil if there is nothing to send.
  unfoldable pub new_status : ℕ → List ℕ → M → Option SyncStatus
  new_status x tracked m =
      if is_empty (keys_to_synchronize m (fresh_status x tracked))
      then none
      else some (fresh_status x tracked)

  unfoldable pub start_keys : M → List ℕ → SyncStatus → Token × SyncStatus
  start_keys m keys s = (
    record { object = s.object; previous_values = values_at (o.value m s.object) keys },
    record s { in_progress = union s.in_progress keys },
  )

  unfoldable pub finish_keys : M → Token → SyncStatus → List ℕ × SyncStatus
  finish_keys m t s = (
    new_values (o.value m t.object) t.previous_values,
    record s { in_progress = minus s.in_progress (token_keys t.previous_values) },
  )

  unfoldable pub reset_keys : Token → SyncStatus → M → SyncStatus × M
  reset_keys t s m = (
    record s { in_progress = minus s.in_progress (token_keys t.previous_values) },
    o.reset_modified (token_keys t.previous_values) s.object m,
  )

  abbrev pub modified_status : ModifiedStatus SyncStatus M
  modified_status = record {
    object = λ s. s.object;
    keys_to_synchronize = keys_to_synchronize;
    is_done = status_is_done;
    status_with_object = new_status;
    start_synchronizing_keys = start_keys;
    changed_keys_and_finish = finish_keys;
    reset_locally_modified_keys = reset_keys;
  }
