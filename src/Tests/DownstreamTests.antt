-- ===== src/Tests/DownstreamTests.antt =====
-- The downstream sync at concrete inputs.
use zmessaging_cocoa.Base.{
  ℕ, true, false, Option, none, some, is_some, List, [], ◌∷◌, ◌≡◌, ==_refl, arith, refl,
}
use zmessaging_cocoa.States.World.{ResponseStatus}
use zmessaging_cocoa.Syncs.RemoteIdentifiers.{member, union}
use zmessaging_cocoa.Syncs.Downstream.{
  DownstreamTranscoder, Context, Entity, Parts, Downstream, init, init_for_updates,
  init_with_predicate, next_request, process_response,
}
use zmessaging_cocoa.Syncs.Downstream as Inner
use zmessaging_cocoa.Syncs.OperationSet as Operations
use zmessaging_cocoa.Syncs.Modified.{intersect}
use zmessaging_cocoa.Syncs.Whitelist
use zmessaging_cocoa.Syncs.Whitelist.Laws.{
  IsListed, lists, changes, asks, step, run, run-IsListed, init-IsListed,
}
use zmessaging_cocoa.Syncs.Downstream.Loop.{IsSearch, next_request_ends, response_ends}

-- The states are the objects that are to be updated.
abbrev transcoder : DownstreamTranscoder (List ℕ)
transcoder = record {
  request_for_fetching_object = λ x d. (some x, d);
  delete_object = λ x d. [];
  update_object = λ x d. x ∷ d;
}

abbrev first_of : List ℕ → List ℕ → Option ℕ
first_of out [] = none
first_of out (x ∷ xs) =
    let rest = first_of out xs in elim (member x out) [ true ↦ rest | false ↦ some x ]

abbrev context : Context (List ℕ)
context = record { is_zombie = λ d x. false; first_not_in = first_of }

abbrev entity : Entity (List ℕ)
entity = record {
  has_object = λ x. true;
  needs_to_be_updated = λ d x. member x d;
  sort_descriptors_for_updating = none;
}

abbrev parts : Parts (List ℕ)
parts = (init_for_updates transcoder context entity (2 ∷ [])).0

abbrev waiting : Downstream (List ℕ)
waiting = record {
  objects_to_download = record {
    being_synchronized = [];
    pending = 1 ∷ 2 ∷ [];
    partial = [];
    sort_descriptors = none;
  };
  outside = 2 ∷ [];
}

member-first_of : (out xs : List ℕ) (x : ℕ) → first_of out xs ≡ some x → member x xs ≡ true
unfolding member
member-first_of out [] x h = ground arith
member-first_of out (y ∷ ys) x h = ground (arith, h, member-first_of out ys x, ==_refl y)

first_of-IsSearch : IsSearch first_of
first_of-IsSearch = record { gives = member-first_of }

next_request_ends_example : is_some (next_request parts waiting) ≡ true
unfolding init_for_updates init_with_predicate init
next_request_ends_example = next_request_ends parts waiting first_of-IsSearch

response_ends_example :
    let after = process_response parts ResponseStatus.success 2 waiting in
    (member 1 after.objects_to_download.pending ≡ true)
    × (member 2 after.objects_to_download.being_synchronized ≡ false)
    × (after.outside ≡ 2 ∷ 2 ∷ [])
unfolding init_for_updates init_with_predicate init member
response_ends_example = response_ends parts ResponseStatus.success 2 1 waiting

-- Objects 4, 5 and 9 are to be updated; 9 was whitelisted, and 4 is while all three change.
abbrev fresh_sync : Whitelist.Whitelisted (List ℕ)
fresh_sync =
    (Whitelist.init transcoder context entity entity.needs_to_be_updated (4 ∷ 5 ∷ 9 ∷ [])).1

abbrev one_listed : Whitelist.Whitelisted (List ℕ)
one_listed = run parts (lists 9 ∷ []) fresh_sync

one_listed-IsListed : IsListed parts one_listed
unfolding Whitelist.init
one_listed-IsListed =
    (run-IsListed parts (lists 9 ∷ []) fresh_sync (record {
      listed =
          (init-IsListed transcoder context entity entity.needs_to_be_updated
            (4 ∷ 5 ∷ 9 ∷ [])).listed;
    })).0

abbrev both_listed : Whitelist.Whitelisted (List ℕ)
both_listed = run parts (changes (4 ∷ 5 ∷ 9 ∷ []) ∷ lists 4 ∷ asks ∷ []) one_listed

run-IsListed_example :
    IsListed parts both_listed
    × ((y : ℕ) → member y one_listed.whitelist ≡ true → member y both_listed.whitelist ≡ true)
run-IsListed_example =
    run-IsListed parts (changes (4 ∷ 5 ∷ 9 ∷ []) ∷ lists 4 ∷ asks ∷ []) one_listed
      one_listed-IsListed

-- In that run 4 and 9 are to be downloaded, and 5 is not.
both_pending :
    (member 4 both_listed.inner.objects_to_download.pending ≡ true)
    × (member 9 both_listed.inner.objects_to_download.pending ≡ true)
    × (member 5 both_listed.inner.objects_to_download.pending ≡ false)
unfolding run step Whitelist.white_list_object Whitelist.objects_did_change Whitelist.next_request
    Whitelist.init member next_request Operations.next_object Inner.objects_did_change
    init_for_updates intersect union Inner.init_with_filter Operations.add_object Operations.init
    Operations.did_start
both_pending = (refl, refl, refl)
