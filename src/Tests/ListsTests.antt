-- ===== src/Tests/ListsTests.antt =====
-- The operation set at a concrete input.
use zmessaging_cocoa.Base.{not, ◌&&◌, ◌≡◌, none, some, [], ◌∷◌, ◌==◌}
use zmessaging_cocoa.States.World.{ResponseStatus}
use zmessaging_cocoa.Syncs.RemoteIdentifiers.{member}
use zmessaging_cocoa.Syncs.OperationSet.{OperationSet, Values, finish, is_sent, member-finish}

abbrev two_pending : OperationSet
two_pending = record {
  being_synchronized = 3 ∷ [];
  pending = 3 ∷ 4 ∷ [];
  partial = [];
  sort_descriptors = none;
}

-- Key 1 was sent with value 10, and has it still.
abbrev value : Values
value o k = some 10

member-finish_example :
    member 3 (finish value ((1, some 10) ∷ []) 3 ResponseStatus.success two_pending).pending ≡ (
      member 3 two_pending.pending
      && not (3 == 3 && is_sent value ((1, some 10) ∷ []) 3 ResponseStatus.success))
member-finish_example = member-finish value 1 (some 10) [] 3 3 ResponseStatus.success two_pending
