-- ===== src/Syncs/Contracts/Objects.antt =====
-- ZMSyncOperationSet.h, ZMLocallyInsertedObjectSet.h and ZMDependentObjects.h. An object and a key
-- are numbers; a search that the library does for the sets is an argument.
use zmessaging_cocoa.Base.{
  ℕ, Bool, true, false, Option, none, some, is_some, List, [], ◌∷◌, ◌≡◌, ◌≢◌, refl, arith, ==_refl,
  same?,
}
use zmessaging_cocoa.States.World.{ResponseStatus}
use zmessaging_cocoa.Syncs.RemoteIdentifiers.{member, union, minus}
use zmessaging_cocoa.Syncs.RemoteIdentifiers.Sets.{member-minus, member-union}
use zmessaging_cocoa.Syncs.OperationSet.{OperationSet, Token, Values, Partial, unchanged, values_of}
use zmessaging_cocoa.Syncs.OperationSet as Operations
use zmessaging_cocoa.Syncs.InsertedSet.{InsertedSet, IsChoice}
use zmessaging_cocoa.Syncs.InsertedSet as Inserted
use zmessaging_cocoa.Syncs.Dependents.{
  Table, add_dependent, enumerate, any_dependency, waits_for, waits_for-add_dependent,
  waits_for-enumerate,
}

-- ZMSyncOperationSet, over its states `S`, without the sort descriptors, which the search replaces.
pub record OperationSets (S : Type 0) : Type 0 where
  pub count : S → ℕ
  pub add_object_to_be_synchronized : ℕ → S → S
  pub next_object_to_synchronize : S → Option ℕ
  pub did_start_synchronizing_keys : Values → List ℕ → ℕ → S → Token × S
  pub keys_for_which_to_apply_results : Values → Token → ℕ → ResponseStatus → S → List ℕ × S
  pub remove_updated_object : ℕ → Token → List ℕ → S → S
  pub remove_object : ℕ → S → S

-- Its category PartialUpdates.
pub record PartialUpdates (S : Type 0) : Type 0 where
  pub next_object_with_remaining_keys : Option S → S → Option (List ℕ) × Option ℕ
  pub set_remaining_keys : List ℕ → ℕ → S → S

pub record IsOperationSets {S : Type 0} (o : OperationSets S) (p : PartialUpdates S) (start : S)
    : Type 0 where
  -- "If the model has had additional changes to any of the keys ..., there will not be included"
  pub applies_unchanged :
      (value later : Values) (k x : ℕ) (s : S)
      → member k
          (o.keys_for_which_to_apply_results later
            (o.did_start_synchronizing_keys value (k ∷ []) x s).0
            x
            ResponseStatus.success
            (o.did_start_synchronizing_keys value (k ∷ []) x s).1).0
        ≡ true
      → later x k ≡ value x k
  pub applies_kept :
      (value : Values) (k x : ℕ) (s : S)
      → member k
          (o.keys_for_which_to_apply_results value
            (o.did_start_synchronizing_keys value (k ∷ []) x s).0
            x
            ResponseStatus.success
            (o.did_start_synchronizing_keys value (k ∷ []) x s).1).0
        ≡ true
  -- "If -setRemainingKeys:forObject: was never called ..., the remainingKeys will be nil"
  pub no_remaining : (other : Option S) → (p.next_object_with_remaining_keys other start).0 ≡ none
  -- "The object will then be returned ... until this method is called with the same object with an
  -- empty set of keys"
  pub remaining :
      (k x : ℕ) (ks : List ℕ) (other : Option S)
      → p.next_object_with_remaining_keys other (p.set_remaining_keys (k ∷ ks) x start)
        ≡ (some (k ∷ ks), some x)
  pub remaining_until :
      (k x : ℕ) (ks : List ℕ)
      → p.set_remaining_keys [] x (p.set_remaining_keys (k ∷ ks) x start) ≡ start
  -- "or -deleteObject: has been called": removing the object ends it too.
  pub remaining_until_removed :
      (k x : ℕ) (ks : List ℕ) (other : Option S)
      → (p.next_object_with_remaining_keys other
          (o.remove_object x (p.set_remaining_keys (k ∷ ks) x start))).0
        ≡ none
  pub adds_one : (x : ℕ) → o.count (o.add_object_to_be_synchronized x start) ≡ 1

same_sound : (a b : Option ℕ) → same? a b ≡ true → a ≡ b
same_sound a b h = ground arith

same_refl : (a : Option ℕ) → same? a a ≡ true
same_refl a = ground arith

module _ (first_not_in : List ℕ → List ℕ → Option ℕ) where
  abbrev pub operation_sets : OperationSets OperationSet
  operation_sets = record {
    count = Operations.count;
    add_object_to_be_synchronized = Operations.add_object;
    next_object_to_synchronize = Operations.next_object first_not_in none;
    did_start_synchronizing_keys = Operations.did_start;
    keys_for_which_to_apply_results = Operations.did_finish;
    remove_updated_object = Operations.remove_updated;
    remove_object = Operations.remove_object;
  }

  abbrev pub partial_updates : PartialUpdates OperationSet
  partial_updates = record {
    next_object_with_remaining_keys = Operations.next_partial first_not_in;
    set_remaining_keys = Operations.set_remaining_keys;
  }

  -- The implementation in ZMSyncOperationSet.m, from an empty set, keeps the laws of the interface: a
  -- key counts as synchronised after a success exactly if its value has not changed since, no keys
  -- remain before they are set, an object whose remaining keys were set is the next one, with those
  -- keys, and setting none or removing the object ends that.
  pub operation_sets-IsOperationSets :
      IsOperationSets operation_sets partial_updates Operations.init
  unfolding Operations.init Operations.count Operations.add_object Operations.did_start
      Operations.did_finish Operations.remove_object Operations.next_partial
      Operations.set_remaining_keys Operations.drop_partial Operations.put_partial
      Operations.synchronized_keys Operations.unchanged_keys values_of member union
  operation_sets-IsOperationSets = record {
    applies_unchanged = λ value later k x s h. ground (arith, same_sound (later x k) (value x k));
    applies_kept = λ value k x s. ground (arith, ==_refl k, same_refl (value x k));
    no_remaining = λ other. refl;
    remaining = λ k x ks other. refl;
    remaining_until = λ k x ks. ground (arith, ==_refl x);
    remaining_until_removed = λ k x ks other. ground (arith, ==_refl x);
    adds_one = λ x. refl;
  }

-- ZMLocallyInsertedObjectSet, over its states `S`; a message whose assertion fails is `none`.
pub record LocallyInsertedObjects (S : Type 0) : Type 0 where
  pub add_object_to_synchronize : ℕ → S → S
  pub remove_object_to_synchronize : ℕ → S → S
  pub any_object_to_synchronize : S → Option ℕ
  pub did_fail_synchronizing_object : ℕ → S → Option S
  pub did_start_synchronizing_object : ℕ → S → Option S
  pub did_finish_synchronizing_object : ℕ → S → S
  pub is_synchronizing_object : ℕ → S → Bool
  pub count : S → ℕ

pub record IsLocallyInsertedObjects {S : Type 0} (o : LocallyInsertedObjects S) : Type 0 where
  -- What is offered may be started, and is not under way.
  pub offers :
      (x : ℕ) (s : S)
      → o.any_object_to_synchronize s ≡ some x
      → (is_some (o.did_start_synchronizing_object x s) ≡ true)
        × (o.is_synchronizing_object x s ≡ false)
  -- What was added may be started, and then fail or finish.
  pub adding_starts :
      (x : ℕ) (s : S)
      → is_some (o.did_start_synchronizing_object x (o.add_object_to_synchronize x s)) ≡ true
  pub starting_fails :
      (x : ℕ) (s started : S)
      → o.did_start_synchronizing_object x s ≡ some started
      → is_some (o.did_fail_synchronizing_object x started) ≡ true
  -- What is finished or removed is not offered any more, unless it is added again.
  pub finishing_ends :
      (x : ℕ) (s : S) → o.any_object_to_synchronize (o.did_finish_synchronizing_object x s) ≢ some x
  pub removing_ends :
      (x : ℕ) (s : S) → o.any_object_to_synchronize (o.remove_object_to_synchronize x s) ≢ some x

module _ (any : List ℕ → Option ℕ) where
  abbrev pub locally_inserted_objects : LocallyInsertedObjects InsertedSet
  locally_inserted_objects = record {
    add_object_to_synchronize = Inserted.add_object_to_synchronize;
    remove_object_to_synchronize = Inserted.remove_object_to_synchronize;
    any_object_to_synchronize = Inserted.any_object any;
    did_fail_synchronizing_object = Inserted.did_fail_object;
    did_start_synchronizing_object = Inserted.did_start_object;
    did_finish_synchronizing_object = Inserted.did_finish_object;
    is_synchronizing_object = Inserted.is_synchronizing;
    count = Inserted.count;
  }

  -- The implementation in ZMLocallyInsertedObjectSet.m, with a choice that gives elements: what is
  -- offered may be started and is not under way, what was added may be started, what was started
  -- may fail, and what is finished or removed is not offered.
  pub locally_inserted_objects-IsLocallyInsertedObjects :
      IsChoice any → IsLocallyInsertedObjects locally_inserted_objects
  unfolding Inserted.any_object Inserted.did_start_object Inserted.did_fail_object
      Inserted.is_synchronizing Inserted.did_finish_object Inserted.add_object_to_synchronize
      Inserted.remove_object_to_synchronize member
  locally_inserted_objects-IsLocallyInsertedObjects choice = record {
    offers = λ x s e. Inserted.offered_can_start any choice x s e;
    adding_starts = λ x s. ground (arith, ==_refl x, member-union x s.inserted (x ∷ []));
    starting_fails =
        λ x s started e. ground (arith, ==_refl x, member-union x s.synchronizing (x ∷ []));
    finishing_ends = λ x s e. ground (
      arith,
      ==_refl x,
      choice.gives x (minus (minus s.inserted (x ∷ [])) (minus s.synchronizing (x ∷ []))) e,
      member-minus x s.inserted (x ∷ []),
      member-minus x (minus s.inserted (x ∷ [])) (minus s.synchronizing (x ∷ [])),
    );
    removing_ends = λ x s e. ground (
      arith,
      ==_refl x,
      choice.gives x (minus (minus s.inserted (x ∷ [])) s.synchronizing) e,
      member-minus x s.inserted (x ∷ []),
      member-minus x (minus s.inserted (x ∷ [])) s.synchronizing,
    );
  }

-- ZMDependentObjects, over its states `S`.
pub record DependentObjects (S : Type 0) : Type 0 where
  pub add_managed_object_with_dependency : ℕ → ℕ → S → S
  pub enumerate_managed_objects_for_dependency : ℕ → (ℕ → Bool) → S → S
  pub any_dependency_for_object : ℕ → S → Option ℕ
  -- Whether the first object is registered with the second.
  pub is_registered : ℕ → ℕ → S → Bool

pub record IsDependentObjects {S : Type 0} (o : DependentObjects S) : Type 0 where
  pub registers :
      (x d : ℕ) (s : S) → o.is_registered x d (o.add_managed_object_with_dependency x d s) ≡ true
  -- "When the block returns YES the object will get removed from the receiver, otherwise it will
  -- stay registered with the given dependency."
  pub removes :
      (x d : ℕ) (block : ℕ → Bool) (s : S)
      → block x ≡ true
      → o.is_registered x d (o.enumerate_managed_objects_for_dependency d block s) ≡ false
  pub stays :
      (x d : ℕ) (block : ℕ → Bool) (s : S)
      → block x ≡ false
      → o.is_registered x d (o.enumerate_managed_objects_for_dependency d block s)
        ≡ o.is_registered x d s

abbrev pub dependent_objects : DependentObjects Table
dependent_objects = record {
  add_managed_object_with_dependency = add_dependent;
  enumerate_managed_objects_for_dependency = enumerate;
  any_dependency_for_object = any_dependency;
  is_registered = waits_for;
}

-- The implementation in ZMDependentObjects.m keeps the laws of the interface: an object that is added
-- is registered with its dependency, and enumerating a dependency's objects removes those for which
-- the block returns YES from that dependency, while the others stay registered as they were.
pub dependent_objects-IsDependentObjects : IsDependentObjects dependent_objects
dependent_objects-IsDependentObjects = record {
  registers = λ x d s. ground (arith, ==_refl x, ==_refl d, waits_for-add_dependent x d x d s);
  removes = λ x d block s h. ground (arith, ==_refl d, waits_for-enumerate d block x d s);
  stays = λ x d block s h. ground (arith, ==_refl d, waits_for-enumerate d block x d s);
}
