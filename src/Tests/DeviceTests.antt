-- ===== src/Tests/DeviceTests.antt =====
-- Push tokens, typing that is told, search requests and images at concrete inputs.
use zmessaging_cocoa.Base.{
  ℕ, Bool, true, false, Option, none, some, List, [], ◌∷◌, ◌≡◌, ◌&&◌, ◌||◌, if◌then◌else◌, ltb,
  refl, zero, suc,
}
use zmessaging_cocoa.Syncs.RemoteIdentifiers.{member}
use zmessaging_cocoa.Push.{Coder, Slot, PushToken, get_token, set_token, encode, decode}
use zmessaging_cocoa.Push.Laws.{stored, stored_token}
use zmessaging_cocoa.Typing.Transcoder as Telling
use zmessaging_cocoa.Typing.Transcoder.Laws.{IsFirst, told_again, asked, cleared}
use zmessaging_cocoa.Search.Request as Searching
use zmessaging_cocoa.Images as Images
use zmessaging_cocoa.Images.Laws.{Makes, changed_owners, wanted}

abbrev token : PushToken
token = record {
  device_token = some 7;
  app_identifier = none;
  transport_type = some 3;
  fallback = none;
  is_registered = true;
  is_marked_for_deletion = false;
}

-- The metadata were changed since the copy was made.
abbrev archive_of : Coder → ℕ
archive_of c = 5

abbrev values_of : ℕ → Option Coder
values_of d = some (encode token)

abbrev slot : Slot
slot = record { metadata = some 6; cached_data = some 5; cached_token = some token }

stored_token_example :
    ((get_token archive_of values_of slot).0 ≡ stored archive_of values_of slot)
    × ((get_token archive_of values_of (set_token archive_of values_of (some token) slot)).0
        ≡ some token)
    × (stored archive_of values_of (set_token archive_of values_of (some token) slot) ≡ some token)
    × ((get_token archive_of values_of (set_token archive_of values_of none slot)).0 ≡ none)
unfolding encode decode
stored_token_example = stored_token archive_of values_of slot token (λ d t h k. k) refl

abbrev first_of : List (ℕ × Bool) → Option ℕ
first_of [] = none
first_of ((c, b) ∷ rest) = some c

first_of-IsFirst : IsFirst first_of
first_of-IsFirst = record { of_none = refl; of_one = λ c b. refl }

abbrev idle : Telling.Transcoder
idle = record { typing = none; conversations = []; last_sent = none; announced = 0 }

abbrev sent : Option (ℕ × Bool) × Telling.Transcoder
sent = asked (λ c. true) first_of 100 true 4 (cleared (λ c. true) first_of 4 idle)

told_again_example :
    (sent.0 ≡ some (4, true))
    × ((asked (λ c. true) first_of 600 true 4 sent.1).0
        ≡ (if ltb 500 Telling.send_timeout then none else some (4, true)))
    × ((asked (λ c. true) first_of 600 true 4 (cleared (λ c. true) first_of 4 sent.1)).0
        ≡ some (4, true))
told_again_example =
    told_again (λ c. true) first_of first_of-IsFirst 4 true 100 500 0 none none refl

abbrev request : Searching.SearchRequest
request = record Searching.new_request { include_contacts = true }

copied_request_example :
    (Searching.copy (Searching.set_query (some (b'a' ∷ [])) request)
      ≡ Searching.set_query (some (b'a' ∷ [])) request)
    × (Searching.equal_requests
          (Searching.set_query (some (b'a' ∷ [])) request)
          (Searching.copy (Searching.set_query (some (b'a' ∷ [])) request))
        ≡ true)
copied_request_example = Searching.copied_request request (some (b'a' ∷ []))

-- Even owners can be preprocessed.
abbrev even : ℕ → Bool
even zero = true
even (suc zero) = false
even (suc (suc n)) = even n

abbrev preprocessing : Images.Preprocessing ℕ
preprocessing = record {
  operations = λ d x. if even x then some (x ∷ []) else none;
  is_of_class = λ x. true;
  needs_preprocessing = λ d x. true;
  fetch_predicate = λ d x. true;
  sort = λ d xs. xs;
  processing_did_finish = λ x d. d;
  set_image_data = λ o x d. d;
}

makes_two : Makes preprocessing 2 true
makes_two = record { makes = λ d. refl }

abbrev changed : Images.Tracker ℕ
changed = Images.objects_did_change preprocessing (2 ∷ 3 ∷ []) (Images.init {D = ℕ} 0)

changed_owners_example :
    (changed.needing ≡ [])
    × (member 2 changed.being ≡ (
        member 2 (Images.init {D = ℕ} 0).being
        || (member 2 (Images.init {D = ℕ} 0).needing
            || member 2 (2 ∷ 3 ∷ []) && wanted preprocessing 2 (Images.init {D = ℕ} 0))
          && (Images.init {D = ℕ} 0).has_preprocessor
          && true))
changed_owners_example =
    changed_owners preprocessing 2 true (2 ∷ 3 ∷ []) (Images.init {D = ℕ} 0) makes_two
