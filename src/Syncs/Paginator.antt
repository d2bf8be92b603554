-- ===== src/Syncs/Paginator.antt =====
-- Transcoders/Helper/ZMSimpleListRequestPaginator.m: a list that is fetched page by page, one
-- request at a time by ZMSingleRequestSync. The transcoder is an interface; a request is its query.
use zmessaging_cocoa.Base.{ℕ, Bool, true, false, not, Option, none, some, ◌≡◌, arith, if◌then◌else◌}
use zmessaging_cocoa.States.World.{ResponseStatus}
use zmessaging_cocoa.Syncs.Single as Single

-- What the paginator asks of its transcoder; an optional method that is missing is `none`.
pub record Pages (R : Type 0) : Type 0 where
  pub result : R → ResponseStatus
  pub should_parse_error : Option (R → Bool)
  pub next_uuid : Option (R → Option ℕ)
  pub has_more : R → Bool  -- "has_more" of the payload
  pub start_uuid : Option (Option ℕ)
  pub self_client : Option ℕ

pub record Query : Type 0 where
  pub size : ℕ
  pub start : Option ℕ
  pub client : Option ℕ

pub record Paginator : Type 0 where
  pub page_size : ℕ
  pub include_client : Bool
  pub has_more_to_fetch : Bool
  pub last_uuid : Option ℕ
  pub sync : Single.Sync

unfoldable pub init : ℕ → Bool → Paginator
init size client = record {
  page_size = size;
  include_client = client;
  has_more_to_fetch = false;
  last_uuid = none;
  sync = Single.init;
}

unfoldable pub ready : Paginator → Paginator
ready p = record p { sync = Single.ready_for_next_request p.sync }

abbrev numbered : {A : Type 0} → ℕ → Option A → Option ℕ
numbered n none = none
numbered n (some a) = some n

abbrev with_query : Option Query → Option (ℕ × ℕ) → Option (Query × ℕ)
with_query (some q) (some (n, counter)) = some (q, counter)
with_query _ _ = none

module _ {R : Type 0} (pages : Pages R) where
  -- `requestForSingleRequestSync:`
  unfoldable pub page_query : Paginator → Option Query
  page_query p =
      if not p.has_more_to_fetch
      then none
      else some (record {
        size = p.page_size;
        start = p.last_uuid;
        client = if p.include_client then pages.self_client else none;
      })

  -- The request and the counter of its start; `n` stands for the new request object.
  unfoldable pub next_request : ℕ → Paginator → Option (Query × ℕ) × Paginator
  unfolding page_query
  next_request n p =
      let query = page_query p in
      let (request, s) = Single.next_request (numbered n query) p.sync in
      if not p.has_more_to_fetch
      then (none, p)
      else (with_query query request, record p { sync = s })

  pub update_state : R → Paginator → Paginator
  update_state r p = elim pages.next_uuid [
    | none ↦ record p { has_more_to_fetch = false }
    | some next ↦ record p { has_more_to_fetch = pages.has_more r; last_uuid = next r }
  ]

  abbrev parses : R → Bool
  parses r = elim pages.should_parse_error [ none ↦ false | some f ↦ f r ]

  -- `didReceiveResponse:forSingleRequest:`; a parsed error ends early.
  pub did_receive : ResponseStatus → R → Paginator → Paginator
  unfolding ready update_state
  did_receive ResponseStatus.success r p = ready (update_state r p)
  did_receive ResponseStatus.permanent_error r p =
      if parses r then update_state r p else ready (record p { has_more_to_fetch = false })
  did_receive _ r p = ready p

  -- The response to the request that went out with the counter `start`.
  pub respond : ℕ → R → Paginator → Paginator
  unfolding did_receive
  respond start r p =
      let (told, s) = Single.process_response start (pages.result r) p.sync in
      let p' = record p { sync = s } in if told then did_receive (pages.result r) r p' else p'

  unfoldable pub reset_fetching : Paginator → Paginator
  unfolding ready
  reset_fetching p = ready (record p {
    has_more_to_fetch = true;
    last_uuid = elim pages.start_uuid [ none ↦ none | some u ↦ u ];
  })

  abbrev pub fetches : Paginator → R → Paginator
  fetches p r = respond p.sync.counter r (next_request 0 p).1

  -- A page that arrives is followed by the request for the next one, from where the page ended, as
  -- long as the response says that there is more, and by none after the last one.
  pub page_follows :
      (p : Paginator) (r : R) (next : R → Option ℕ)
      → p.has_more_to_fetch ≡ true
      → p.sync.status ≡ Single.Progress.in_progress
      → p.sync.current_request ≡ none
      → pages.next_uuid ≡ some next
      → pages.result r ≡ ResponseStatus.success
      → (page_query (fetches p r) ≡ (
          if pages.has_more r
          then some (record {
            size = p.page_size;
            start = next r;
            client = if p.include_client then pages.self_client else none;
          })
          else none))
        × ((fetches p r).sync.status ≡ Single.Progress.in_progress)
        × ((fetches p r).sync.current_request ≡ none)
  unfolding page_query respond next_request Single.next_request Single.process_response
      Single.ready_for_next_request
  page_follows p r next more busy free u ok = ground arith

  -- After an error response that the transcoder wants parsed and that says there is more, the
  -- paginator has more to fetch and yet gives out no request, for it has not made its sync ready.
  pub parsed_error_stalls :
      (p : Paginator) (n : ℕ) (r : R) (parse : R → Bool) (next : R → Option ℕ)
      → p.has_more_to_fetch ≡ true
      → p.sync.status ≡ Single.Progress.in_progress
      → p.sync.current_request ≡ none
      → pages.next_uuid ≡ some next
      → pages.should_parse_error ≡ some parse
      → pages.result r ≡ ResponseStatus.permanent_error
      → parse r ≡ true
      → pages.has_more r ≡ true
      → ((fetches p r).has_more_to_fetch ≡ true)
        × (next_request n (fetches p r) ≡ (none, fetches p r))
  unfolding page_query respond next_request Single.next_request Single.process_response
      Single.ready_for_next_request
  parsed_error_stalls p n r parse next more busy free u e bad y m = ground arith
