-- ===== src/Tests/SyncsTests.antt =====
-- The single syncs at concrete inputs.
use zmessaging_cocoa.Base.{
  ℕ, true, false, ◌≡◌, refl, arith, none, some, List, [], ◌∷◌, is_none, length, ◌≤◌, not, ◌&&◌,
  ◌||◌,
}
use zmessaging_cocoa.States.World.{ResponseStatus}
use zmessaging_cocoa.Syncs.Single.{Progress, Sync, next_request, process_response, response_decides}
use zmessaging_cocoa.Syncs.RemoteIdentifiers.{member, will_be_downloaded, is_done, IsSort}
use zmessaging_cocoa.Syncs.RemoteIdentifiers.Downloads.{
  request_moves_identifiers, identifier_kept, expired_never_done, rounds, rounds_finish,
  member-will_be_downloaded,
}
use zmessaging_cocoa.Syncs.RemoteIdentifiers as Ids

abbrev ready : Sync
ready = record { status = Progress.in_progress; current_request = none; counter = 4 }

response_decides_example :
    let sent = next_request (some 9) ready in
    let (told, after) = process_response 4 ResponseStatus.temporary_error sent.1 in
    (sent.0 ≡ some (9, 4))
    × (next_request (some 3) sent.1 ≡ (none, sent.1))
    × (is_none (next_request (some 10) after).0 ≡ told)
response_decides_example =
    response_decides ready 9 10 (some 3) ResponseStatus.temporary_error (omega arith) refl refl

abbrev same : List ℕ → List ℕ
same xs = xs

same-IsSort : IsSort same
same-IsSort = record { keeps = λ a xs. refl }

abbrev three : Ids.Sync
three = record { needed = 1 ∷ 2 ∷ 3 ∷ []; in_progress = [] }

abbrev asked : Ids.Sync
asked = record { needed = 3 ∷ []; in_progress = 1 ∷ 2 ∷ [] }

-- The request for 1 and 2 fails for now; 3 is asked for and comes.
abbrev failing : List Ids.Event
failing =
    Ids.Event.responds (1 ∷ 2 ∷ []) ResponseStatus.temporary_error
    ∷ Ids.Event.adds (3 ∷ [])
    ∷ Ids.Event.responds (3 ∷ []) ResponseStatus.success
    ∷ []

abbrev one_two : List ℕ
one_two = 1 ∷ 2 ∷ []

request_moves_identifiers_example :
    (length one_two ≤ 2)
    × ((member 2 one_two && not (member 2 three.needed)) ≡ false)
    × (member 2 asked.needed ≡ (member 2 three.needed && not (member 2 one_two)))
    × (member 2 asked.in_progress ≡ (member 2 three.in_progress || member 2 one_two))
    × (member 2 (will_be_downloaded asked) ≡ member 2 (will_be_downloaded three))
unfolding Ids.next_request Ids.first Ids.minus Ids.union Ids.member
request_moves_identifiers_example = request_moves_identifiers 2 2 three asked one_two refl

two_in_progress : member 2 asked.in_progress ≡ true
unfolding Ids.member
two_in_progress = refl

two_pending : member 2 (will_be_downloaded asked) ≡ true
two_pending = ground (arith, member-will_be_downloaded 2 asked, two_in_progress)

not_in_three : member 2 (3 ∷ []) ≡ false
unfolding Ids.member
not_in_three = refl

identifier_kept_example : member 2 (will_be_downloaded (Ids.run same asked failing)) ≡ true
identifier_kept_example =
    identifier_kept same same-IsSort 2 asked failing (tt, (tt, (not_in_three, tt))) two_pending

-- The request for 1 and 2 expires; everything else is answered and asked for again.
abbrev expiring : List Ids.Event
expiring =
    Ids.Event.responds (1 ∷ 2 ∷ []) ResponseStatus.expired
    ∷ Ids.Event.asks 5
    ∷ Ids.Event.responds (3 ∷ []) ResponseStatus.success
    ∷ Ids.Event.asks 5
    ∷ []

expired_never_done_example : is_done (Ids.run same asked expiring) ≡ false
expired_never_done_example =
    expired_never_done same 2 asked expiring (tt, (tt, (not_in_three, (tt, tt)))) two_in_progress

rounds_finish_example : is_done (rounds same 2 3 three) ≡ true
rounds_finish_example = rounds_finish same 2 3 three (omega arith) refl (omega arith)
