-- ===== src/Syncs/RemoteIdentifiers.antt =====
-- ZMRemoteIdentifierObjectSync.m: the identifiers that are still to be downloaded, and those that a
-- request is under way for. An identifier is the number that its 16 bytes are, most significant
-- first, so `memcmp` compares numbers. The sort of the ordered set is the platform's, a parameter.
pub mod Sets
pub mod Downloads
use zmessaging_cocoa.Base.{
  ℕ, zero, suc, Bool, true, false, not, ◌&&◌, ◌||◌, Option, none, some, ◌≡◌, ◌==◌, if◌then◌else◌,
  List, [], ◌∷◌, ◌++◌,
}
use zmessaging_cocoa.States.World.{ResponseStatus}

unfoldable pub member : ℕ → List ℕ → Bool
member a [] = false
member a (x ∷ xs) = x == a || member a xs

-- `unionSet:`, which appends what is not yet there.
unfoldable pub union : List ℕ → List ℕ → List ℕ
union xs [] = xs
union xs (y ∷ ys) = union (if member y xs then xs else xs ++ y ∷ []) ys

-- `minusSet:`
unfoldable pub minus : List ℕ → List ℕ → List ℕ
minus [] ys = []
minus (x ∷ xs) ys = let rest = minus xs ys in if member x ys then rest else x ∷ rest

-- `isSubsetOfSet:`
unfoldable pub is_subset : List ℕ → List ℕ → Bool
is_subset [] ys = true
is_subset (x ∷ xs) ys = member x ys && is_subset xs ys

-- The first `count` elements, or all.
unfoldable pub first : ℕ → List ℕ → List ℕ
first zero xs = []
first (suc n) [] = []
first (suc n) (x ∷ xs) = x ∷ first n xs

abbrev pub is_empty : List ℕ → Bool
is_empty [] = true
is_empty (x ∷ xs) = false

pub record Sync : Type 0 where
  pub needed : List ℕ
  pub in_progress : List ℕ

unfoldable pub init : Sync
init = record { needed = []; in_progress = [] }

-- The platform's sort keeps the elements.
pub record IsSort (sort : List ℕ → List ℕ) : Type 0 where
  pub keeps : (a : ℕ) (xs : List ℕ) → member a (sort xs) ≡ member a xs

unfoldable pub is_done : Sync → Bool
is_done s = is_empty s.needed && is_empty s.in_progress

-- `remoteIdentifiersThatWillBeDownloaded`
unfoldable pub will_be_downloaded : Sync → List ℕ
will_be_downloaded s = union s.needed s.in_progress

-- `maximum` is the transcoder's limit. The request carries the identifiers that are returned.
unfoldable pub next_request : ℕ → Sync → Option (List ℕ) × Sync
next_request maximum s =
    let ids = first maximum s.needed in
    if is_empty s.needed
    then (none, s)
    else (some ids, record { needed = minus s.needed ids; in_progress = union s.in_progress ids })

module _ (sort : List ℕ → List ℕ) where
  unfoldable pub set_as_needing_download : List ℕ → Sync → Sync
  set_as_needing_download ids s = record s { needed = sort (union [] ids) }

  unfoldable pub add_that_need_download : List ℕ → Sync → Sync
  add_that_need_download ids s =
      if not (is_subset ids s.in_progress)
      then record s { needed = sort (union s.needed ids) }
      else s

  -- The completion handler of the request for `ids`.
  pub respond : List ℕ → ResponseStatus → Sync → Sync
  respond ids ResponseStatus.permanent_error s = record s { in_progress = minus s.in_progress ids }
  respond ids ResponseStatus.success s = record s { in_progress = minus s.in_progress ids }
  respond ids ResponseStatus.expired s = s
  respond ids ResponseStatus.temporary_error s = record {
    needed = sort (union s.needed ids);
    in_progress = minus s.in_progress ids;
  }
  respond ids ResponseStatus.try_again_later s = record {
    needed = sort (union s.needed ids);
    in_progress = minus s.in_progress ids;
  }

pub data Event : Type 0 where
  sets adds : List ℕ → Event
  asks : ℕ → Event
  responds : List ℕ → ResponseStatus → Event

pub step : (List ℕ → List ℕ) → Sync → Event → Sync
unfolding set_as_needing_download add_that_need_download next_request respond
step sort s (Event.sets ids) = set_as_needing_download sort ids s
step sort s (Event.adds ids) = add_that_need_download sort ids s
step sort s (Event.asks maximum) = (next_request maximum s).1
step sort s (Event.responds ids result) = respond sort ids result s

pub run : (List ℕ → List ℕ) → Sync → List Event → Sync
run sort s [] = s
run sort s (e ∷ es) = run sort (step sort s e) es
