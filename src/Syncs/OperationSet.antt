-- ===== src/Syncs/OperationSet.antt =====
-- ZMSyncOperationSet.m: the objects whose changes are still to be sent. An object, a key and a value
-- are numbers; a token is the keys with the values that they had when the request was made, and
-- `value` reads an object's value, `[mo valueForKey:]`. Sort descriptors are the
-- search that the utilities' library makes with them.
use zmessaging_cocoa.Base.{
  ℕ, ◌+◌, ◌≤◌, Bool, true, false, ◌&&◌, not, Option, none, some, List, [], ◌∷◌, ◌≡◌, refl, arith,
  ◌==◌, if◌then◌else◌, length, same?,
}
use zmessaging_cocoa.States.World.{ResponseStatus}
use zmessaging_cocoa.Syncs.RemoteIdentifiers.{member, minus, union}
use zmessaging_cocoa.Syncs.RemoteIdentifiers.Sets.{member-minus}

-- ZMPartialSyncOperation.
pub record Partial : Type 0 where
  pub object : ℕ
  pub remaining_keys : List ℕ

pub record OperationSet : Type 0 where
  pub being_synchronized : List ℕ
  pub pending : List ℕ
  pub partial : List Partial
  pub sort_descriptors : Option (List ℕ → List ℕ → Option ℕ)

unfoldable pub init : OperationSet
init = record { being_synchronized = []; pending = []; partial = []; sort_descriptors = none }

unfoldable pub count : OperationSet → ℕ
count s = length s.pending + length s.partial

-- The first partial operation of the object goes.
unfoldable pub drop_partial : ℕ → List Partial → List Partial
drop_partial o [] = []
drop_partial o (p ∷ ps) = let rest = drop_partial o ps in if p.object == o then ps else p ∷ rest

unfoldable pub add_object : ℕ → OperationSet → OperationSet
unfolding drop_partial
add_object o s = record s { pending = union s.pending (o ∷ []); partial = drop_partial o s.partial }

abbrev forbidden : Option OperationSet → OperationSet → List ℕ
forbidden none s = s.being_synchronized
forbidden (some t) s = union s.being_synchronized t.pending

-- `nextObjectToSynchronizeNotInOperationSet:`; `first_not_in` is the utilities' search for the first
-- object that is not in a set.
unfoldable pub next_object :
    (List ℕ → List ℕ → Option ℕ) → Option OperationSet → OperationSet → Option ℕ
next_object first_not_in other s = elim s.sort_descriptors [
  | none ↦ first_not_in (forbidden other s) s.pending
  | some first_sorted_not_in ↦ first_sorted_not_in (forbidden other s) s.pending
]

abbrev pub Token : Type 0
Token = List (ℕ × Option ℕ)

abbrev pub keys_of : Token → List ℕ
keys_of [] = []
keys_of ((k, v) ∷ t) = k ∷ keys_of t

abbrev pub Values : Type 0
Values = ℕ → ℕ → Option ℕ

unfoldable pub values_of : Values → ℕ → List ℕ → Token
values_of value o [] = []
values_of value o (k ∷ ks) = (k, value o k) ∷ values_of value o ks

-- `didStartSynchronizingKeys:forObject:`
unfoldable pub did_start : Values → List ℕ → ℕ → OperationSet → Token × OperationSet
unfolding values_of
did_start value keys o s =
    (values_of value o keys, record s { being_synchronized = union s.being_synchronized (o ∷ []) })

unfoldable pub unchanged_keys : Values → ℕ → Token → List ℕ
unchanged_keys value o [] = []
unchanged_keys value o ((k, v) ∷ t) =
    let rest = unchanged_keys value o t in if same? (value o k) v then k ∷ rest else rest

unfoldable pub synchronized_keys : Values → Token → ℕ → ResponseStatus → List ℕ
unfolding unchanged_keys
synchronized_keys value token o ResponseStatus.temporary_error = []
synchronized_keys value token o ResponseStatus.try_again_later = []
synchronized_keys value token o ResponseStatus.permanent_error = keys_of token
synchronized_keys value token o _ = unchanged_keys value o token

-- `keysForWhichToApplyResultsAfterFinishedSynchronizingSyncWithToken:forObject:result:`
unfoldable pub did_finish :
    Values → Token → ℕ → ResponseStatus → OperationSet → List ℕ × OperationSet
unfolding synchronized_keys
did_finish value token o result s = (
  synchronized_keys value token o result,
  record s { being_synchronized = minus s.being_synchronized (o ∷ []) },
)

-- `removeUpdatedObject:syncToken:synchronizedKeys:`
unfoldable pub remove_updated : ℕ → Token → List ℕ → OperationSet → OperationSet
remove_updated o token keys s =
    if length keys == length token then record s { pending = minus s.pending (o ∷ []) } else s

unfoldable pub remove_object : ℕ → OperationSet → OperationSet
unfolding drop_partial
remove_object o s = record s {
  pending = minus s.pending (o ∷ []);
  partial = drop_partial o s.partial;
}

unfoldable pub contains_object : ℕ → OperationSet → Bool
contains_object o s = member o s.pending

-- `nextObjectToSynchronizeWithRemainingKeys:notInOperationSet:`
unfoldable pub next_partial :
    (List ℕ → List ℕ → Option ℕ) → Option OperationSet → OperationSet → Option (List ℕ) × Option ℕ
unfolding next_object
next_partial first_not_in other s = elim s.partial [
  | [] ↦ (none, next_object first_not_in other s)
  | p ∷ ps ↦ (some p.remaining_keys, some p.object)
]

unfoldable pub put_partial : ℕ → List ℕ → List Partial → List Partial
put_partial o keys [] = (record { object = o; remaining_keys = keys }) ∷ []
put_partial o keys (p ∷ ps) =
    let rest = put_partial o keys ps in
    if p.object == o then (record p { remaining_keys = keys }) ∷ ps else p ∷ rest

-- `setRemainingKeys:forObject:`
unfoldable pub set_remaining_keys : List ℕ → ℕ → OperationSet → OperationSet
unfolding drop_partial put_partial
set_remaining_keys [] o s = record s { partial = drop_partial o s.partial }
set_remaining_keys (k ∷ ks) o s = record s { partial = put_partial o (k ∷ ks) s.partial }

-- Whether every key of the token still has the value that was sent.
pub unchanged : Values → ℕ → Token → Bool
unchanged value o [] = true
unchanged value o ((k, v) ∷ t) = same? (value o k) v && unchanged value o t

length-unchanged_keys :
    (value : Values) (o : ℕ) (token : Token)
    → (length (unchanged_keys value o token) ≤ length token)
      × ((length (unchanged_keys value o token) == length token) ≡ unchanged value o token)
unfolding unchanged_keys unchanged
length-unchanged_keys value o [] = ground arith
length-unchanged_keys value o ((k, v) ∷ t) = ground (arith, length-unchanged_keys value o t)

length-keys_of : (token : Token) → (length (keys_of token) == length token) ≡ true
length-keys_of [] = refl
length-keys_of ((k, v) ∷ t) = ground (arith, length-keys_of t)

-- When the request for an object has ended: what counts as sent.
pub is_sent : Values → Token → ℕ → ResponseStatus → Bool
unfolding unchanged
is_sent value token o ResponseStatus.temporary_error = false
is_sent value token o ResponseStatus.try_again_later = false
is_sent value token o ResponseStatus.permanent_error = true
is_sent value token o _ = unchanged value o token

abbrev pub finish : Values → Token → ℕ → ResponseStatus → OperationSet → OperationSet
finish value token o result s =
    let (keys, after) = did_finish value token o result s in remove_updated o token keys after

-- When the request for a non-empty set of an object's keys ends and the object is taken out by the
-- keys that count as synchronised, it stops being pending exactly after a permanent error, or after
-- a success or an expiry if no value has changed since it was sent; every other object stays as
-- it was.
pub member-finish :
    (value : Values) (k : ℕ) (v : Option ℕ) (token : Token) (o x : ℕ) (result : ResponseStatus)
    (s : OperationSet)
    → member x (finish value ((k, v) ∷ token) o result s).pending
      ≡ (member x s.pending && not (o == x && is_sent value ((k, v) ∷ token) o result))
unfolding did_finish remove_updated is_sent member
member-finish value k v token o x ResponseStatus.success s =
    ground
      (arith, member-minus x s.pending (o ∷ []), length-unchanged_keys value o ((k, v) ∷ token))
member-finish value k v token o x ResponseStatus.permanent_error s =
    ground (arith, member-minus x s.pending (o ∷ []), length-keys_of ((k, v) ∷ token))
member-finish value k v token o x ResponseStatus.temporary_error s = ground arith
member-finish value k v token o x ResponseStatus.try_again_later s = ground arith
member-finish value k v token o x ResponseStatus.expired s =
    ground
      (arith, member-minus x s.pending (o ∷ []), length-unchanged_keys value o ((k, v) ∷ token))
