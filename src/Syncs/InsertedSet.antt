-- ===== src/Syncs/InsertedSet.antt =====
-- ZMLocallyInsertedObjectSet.m: the objects that were created locally and are still to be sent. A
-- failed `RequireString` is `none`; `anyObject` is the platform's choice, a parameter.
use zmessaging_cocoa.Base.{
  ℕ, Bool, true, false, Option, none, some, List, [], ◌∷◌, ◌≡◌, ◌≢◌, arith, if◌then◌else◌, length,
  is_some, ==_refl,
}
use zmessaging_cocoa.Syncs.RemoteIdentifiers.{member, union, minus}
use zmessaging_cocoa.Syncs.RemoteIdentifiers.Sets.{member-minus, member-union}

pub record InsertedSet : Type 0 where
  pub inserted : List ℕ
  pub synchronizing : List ℕ

-- `anyObject` gives an element of a set.
pub record IsChoice (any : List ℕ → Option ℕ) : Type 0 where
  pub gives : (o : ℕ) (xs : List ℕ) → any xs ≡ some o → member o xs ≡ true

unfoldable pub init : InsertedSet
init = record { inserted = []; synchronizing = [] }

unfoldable pub add_object_to_synchronize : ℕ → InsertedSet → InsertedSet
add_object_to_synchronize o s = record s { inserted = union s.inserted (o ∷ []) }

unfoldable pub remove_object_to_synchronize : ℕ → InsertedSet → InsertedSet
remove_object_to_synchronize o s = record s { inserted = minus s.inserted (o ∷ []) }

unfoldable pub any_object : (List ℕ → Option ℕ) → InsertedSet → Option ℕ
any_object any s = any (minus s.inserted s.synchronizing)

unfoldable pub did_finish_object : ℕ → InsertedSet → InsertedSet
unfolding remove_object_to_synchronize
did_finish_object o s =
    remove_object_to_synchronize o (record s { synchronizing = minus s.synchronizing (o ∷ []) })

unfoldable pub did_start_object : ℕ → InsertedSet → Option InsertedSet
did_start_object o s =
    if member o s.inserted
    then some (record s { synchronizing = union s.synchronizing (o ∷ []) })
    else none

unfoldable pub did_fail_object : ℕ → InsertedSet → Option InsertedSet
did_fail_object o s =
    if member o s.synchronizing
    then some (record s { synchronizing = minus s.synchronizing (o ∷ []) })
    else none

unfoldable pub is_synchronizing : ℕ → InsertedSet → Bool
is_synchronizing o s = member o s.synchronizing

unfoldable pub count : InsertedSet → ℕ
count s = length s.inserted

-- An object that is offered can be started, and is not under way.
pub offered_can_start :
    (any : List ℕ → Option ℕ) (choice : IsChoice any) (o : ℕ) (s : InsertedSet)
    → any_object any s ≡ some o
    → (is_some (did_start_object o s) ≡ true) × (is_synchronizing o s ≡ false)
unfolding any_object did_start_object is_synchronizing
offered_can_start any choice o s e = ground (
  arith,
  choice.gives o (minus s.inserted s.synchronizing) e,
  member-minus o s.inserted s.synchronizing,
)

-- An object that was started is under way and not offered again; if it then fails, it is not under
-- way and is still to be sent.
pub started_not_offered :
    (any : List ℕ → Option ℕ) (choice : IsChoice any) (o p : ℕ) (s started failed : InsertedSet)
    → did_start_object o s ≡ some started
    → any_object any started ≡ some p
    → did_fail_object o started ≡ some failed
    → (p ≢ o)
      × (is_synchronizing o started ≡ true)
      × (is_synchronizing o failed ≡ false)
      × (member o failed.inserted ≡ true)
unfolding any_object did_start_object did_fail_object is_synchronizing member
started_not_offered any choice o p s started failed e offered f = grind (
  arith,
  ==_refl o,
  choice.gives p (minus started.inserted started.synchronizing) offered,
  member-minus p started.inserted started.synchronizing,
  member-minus o started.synchronizing (o ∷ []),
  member-union o s.synchronizing (o ∷ []),
)
