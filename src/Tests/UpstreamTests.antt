-- ===== src/Tests/UpstreamTests.antt =====
-- The upstream syncs at concrete inputs.
use zmessaging_cocoa.Base.{
  ℕ, true, false, Option, none, some, is_none, List, [], ◌∷◌, ◌≡◌, refl, arith,
}
use zmessaging_cocoa.States.World.{ResponseStatus}
use zmessaging_cocoa.Syncs.RemoteIdentifiers.{member, minus}
use zmessaging_cocoa.Syncs.InsertedSet.{IsChoice}
use zmessaging_cocoa.Syncs.Modified.{Objects, SyncStatus}
use zmessaging_cocoa.Syncs.Upstream.{Response, UpstreamTranscoder, request_with_keys}
use zmessaging_cocoa.Syncs.Upstream.Inserted as Inserts
use zmessaging_cocoa.Syncs.Upstream.Inserted.{Inserted}
use zmessaging_cocoa.Syncs.Upstream.Inserted.Laws.{
  Answers, Ends, next_insert-Answers, insert_response-Ends,
}
use zmessaging_cocoa.Syncs.Upstream.Modified as Modifies
use zmessaging_cocoa.Syncs.Upstream.Modified.{Updates}
use zmessaging_cocoa.Syncs.Upstream.Modified.Laws as ModifiedLaws

-- The states are the objects that exist.
abbrev transcoder : UpstreamTranscoder (List ℕ)
transcoder = record {
  should_process_updates_before_inserts = false;
  request_for_updating_object = λ x ks d. (some (request_with_keys (some ks) x), d);
  request_for_inserting_object = λ x ks d. (some (request_with_keys ks x), d);
  update_inserted_object = λ x r response d. d;
  update_updated_object = λ x info response ks d. (false, d);
  object_to_refetch_for_failed_update = λ x d. some x;
  dependent_object_needing_update = none;
  request_expired_for_object = none;
  should_create_request_to_sync = none;
  should_retry_after_failed_update = some (λ x r response ks d. (true, d));
}

abbrev first_one : List ℕ → Option ℕ
first_one [] = none
first_one (x ∷ xs) = some x

member-first_one : (x : ℕ) (xs : List ℕ) → first_one xs ≡ some x → member x xs ≡ true
unfolding member
member-first_one x [] h = ground arith
member-first_one x (y ∷ ys) h = ground arith

first_one-IsChoice : IsChoice first_one
first_one-IsChoice = record { gives = member-first_one }

abbrev context : Inserts.Context (List ℕ)
context = record {
  any = first_one;
  has_object = λ x. true;
  needs_insert = λ d x. member x d;
  is_zombie = λ d x. false;
  delete_object = λ x d. minus d (x ∷ []);
  reset_modifications = λ x d. d;
}

abbrev parts : Inserts.Parts (List ℕ)
parts = record { transcoder = transcoder; context = context; filter = none }

abbrev state : Inserted (List ℕ)
state = record {
  objects = record { inserted = 1 ∷ 2 ∷ []; synchronizing = 1 ∷ [] };
  waiting = none;
  ignored = [];
  outside = 1 ∷ 2 ∷ [];
}

abbrev gone : Response
gone = record { result = ResponseStatus.permanent_error; payload = 0 }

next_insert-Answers_example : Answers parts state (Inserts.next_request parts state)
next_insert-Answers_example = next_insert-Answers parts first_one-IsChoice state

insert_response-Ends_example :
    Ends parts 1 true (Inserts.process_response parts 1 (request_with_keys none 1) gone state)
unfolding member
insert_response-Ends_example =
    insert_response-Ends parts 1 (request_with_keys none 1) gone state refl

-- The states are the modified keys of all objects.
abbrev objects : Objects (List ℕ)
objects = record {
  modified = λ m x. m;
  value = λ m x k. some k;
  tracked_keys = λ m x. 1 ∷ 2 ∷ [];
  reset_modified = λ ks x m. minus m ks;
}

abbrev entity : Modifies.Entity (List ℕ)
entity = record {
  objects = objects;
  has_object = λ x. true;
  needs_update = λ m x. true;
  set_modified = λ ks x m. ks;
  set_needs_refetch = λ x m. m;
}

abbrev update_parts : Modifies.Parts (List ℕ)
update_parts = record {
  transcoder = transcoder;
  entity = entity;
  update_predicate = entity.needs_update;
  filter = none;
}

abbrev status : SyncStatus
status = record { object = 7; tracked = 1 ∷ 2 ∷ []; in_progress = [] }

abbrev updates : Updates (List ℕ)
updates = record {
  updated = record {
    objects = 2 ∷ [];
    tracked_keys = none;
    statuses = (0, status) ∷ [];
    entries = (7, 0) ∷ [];
    next_status = 1;
  };
  waiting = none;
}

transcoder_makes :
    (x : ℕ) (ks m : List ℕ) → is_none (transcoder.request_for_updating_object x ks m).0 ≡ false
transcoder_makes x ks m = refl

next_update-Answers_example :
    ModifiedLaws.Answers update_parts updates (Modifies.next_request update_parts updates)
next_update-Answers_example = ModifiedLaws.next_update-Answers update_parts transcoder_makes updates
