-- ===== src/Search/Request.antt =====
-- ZMSearchRequest.m in Source/UserSession/Search/: what is searched for. A query is the list of its
-- characters, a conversation its number.
use zmessaging_cocoa.Base.{
  ℕ, zero, suc, ◌+◌, ◌*◌, ◌%◌, Bool, true, false, ◌&&◌, Option, none, some, is_some, List, [], ◌∷◌,
  ◌≡◌, if◌then◌else◌, same?, arith, refl, ==_refl, ap,
}
use zmessaging_cocoa.Syncs.RemoteIdentifiers.{first}
use zmessaging_cocoa.HotFix.Versions.{Text, equal_text}

-- ZMSearchRequest.
pub record SearchRequest : Type 0 where
  pub include_contacts : Bool
  pub include_address_book_contacts : Bool
  pub include_group_conversations : Bool
  pub include_directory : Bool
  pub include_remote_results : Bool
  pub query : Option Text
  pub filtered_conversation : Option ℕ

abbrev pub new_request : SearchRequest
new_request = record {
  include_contacts = false;
  include_address_book_contacts = false;
  include_group_conversations = false;
  include_directory = false;
  include_remote_results = false;
  query = none;
  filtered_conversation = none;
}

-- `setQuery:`
unfoldable pub set_query : Option Text → SearchRequest → SearchRequest
set_query none r = record r { query = none }
set_query (some t) r = record r { query = some (first 200 t) }

-- `copyWithZone:`
unfoldable pub copy : SearchRequest → SearchRequest
unfolding set_query
copy r = set_query r.query (record r { query = new_request.query })

abbrev same_truth : Bool → Bool → Bool
same_truth true true = true
same_truth false false = true
same_truth true false = false
same_truth false true = false

-- `isEqualToString:`, which is NO of a query that is nil.
abbrev equal_query : Option Text → Option Text → Bool
equal_query none q = false
equal_query (some t) none = false
equal_query (some t) (some u) = equal_text t u

-- `isEqualToSearchRequest:`, of two objects that are not the same one.
unfoldable pub equal_requests : SearchRequest → SearchRequest → Bool
equal_requests r q =
    equal_query r.query q.query
    && same_truth r.include_contacts q.include_contacts
    && same_truth r.include_address_book_contacts q.include_address_book_contacts
    && same_truth r.include_group_conversations q.include_group_conversations
    && same_truth r.include_directory q.include_directory
    && same_truth r.include_remote_results q.include_remote_results
    && same? r.filtered_conversation q.filtered_conversation

abbrev by_flag : Bool → ℕ → ℕ
by_flag b h = if b then h + 13 * h + 1 else h

-- One more than the greatest NSUInteger, on 64 bits.
abbrev word : ℕ
word = 18446744073709551616

-- `hash`; the sums wrap around, as the last one does here.
unfoldable pub hash : (Text → ℕ) → (ℕ → ℕ) → SearchRequest → ℕ
hash text_hash conversation_hash r =
    let flags = by_flag r.include_remote_results (
      by_flag r.include_directory (
        by_flag r.include_group_conversations
          (by_flag r.include_address_book_contacts (by_flag r.include_contacts 0)))) in
    let filtered : ℕ = elim r.filtered_conversation [
      | none ↦ flags
      | some c ↦ flags + 13 * flags + conversation_hash c
    ] in
    let result : ℕ = elim r.query [
      | none ↦ filtered
      | some t ↦ filtered + 13 + filtered + text_hash t
    ] in
    result % word

abbrev and_identifier : ℕ → Option (List ℕ) → Option (List ℕ)
and_identifier i none = none
and_identifier i (some is) = some (i ∷ is)

-- The loop of `ignoredIDs`; an array takes no nil, so that a missing identifier raises an exception.
unfoldable pub identifiers : List (Option ℕ) → Option (List ℕ)
identifiers [] = some []
identifiers (none ∷ rest) = none
identifiers (some i ∷ rest) = and_identifier i (identifiers rest)

-- `ignoredIDs`, with the identifiers of the other active participants of a conversation.
unfoldable pub ignored_ids : (ℕ → List (Option ℕ)) → SearchRequest → Option (List ℕ)
unfolding identifiers
ignored_ids participants r = elim r.filtered_conversation [
  | none ↦ some []
  | some c ↦ identifiers (participants c)
]

first-first : (n : ℕ) (t : Text) → first n (first n t) ≡ first n t
unfolding first
first-first zero t = refl
first-first (suc n) [] = refl
first-first (suc n) (c ∷ cs) = ap (λ u. c ∷ u) (first-first n cs)

equal_text_refl : (t : Text) → equal_text t t ≡ true
equal_text_refl [] = refl
equal_text_refl (c ∷ cs) = ground (arith, equal_text_refl cs, ==_refl c)

equal_requests_self :
    (r : SearchRequest) (t : Text)
    → let s : SearchRequest = record r { query = some t } in equal_requests s s ≡ true
unfolding equal_requests
equal_requests_self r t = ground (arith, equal_text_refl t)

-- Once a query was set, a copy is the same in all its properties, whatever the length of the query;
-- but `isEqual:` tells it from its original exactly if there is no query.
pub copied_request :
    (r : SearchRequest) (q : Option Text)
    → let s = set_query q r in (copy s ≡ s) × (equal_requests s (copy s) ≡ is_some q)
unfolding copy set_query equal_requests
copied_request r none = ground arith
copied_request r (some t) = (
  ap (λ u. record r { query = some u }) (first-first 200 t),
  rw (first-first 200 t) (equal_requests_self r (first 200 t)),
)
