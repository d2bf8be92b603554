-- ===== src/Syncs/Contracts/Identifiers.antt =====
-- ZMRemoteIdentifierObjectSync.h and Transcoders/Helper/ZMSimpleListRequestPaginator.h. The managed
-- object context is left out.
use zmessaging_cocoa.Base.{ℕ, Bool, true, false, Option, none, is_some, List, ◌≡◌, refl, arith}
use zmessaging_cocoa.States.World.{ResponseStatus}
use zmessaging_cocoa.Syncs.Single as Single
use zmessaging_cocoa.Syncs.Paginator.{Paginator, Pages, Query}
use zmessaging_cocoa.Syncs.Paginator as Paginator
use zmessaging_cocoa.Syncs.RemoteIdentifiers.{
  Sync, init, is_done, will_be_downloaded, next_request, set_as_needing_download,
  add_that_need_download,
}

-- What the sync asks of its transcoder, over the transcoder's states `T`.
pub record RemoteIdentifierTranscoder (T : Type 0) : Type 0 where
  pub maximum_remote_identifiers_per_request : T → ℕ
  pub request_for_object_sync : T → List ℕ → ℕ
  pub did_receive_response : ResponseStatus → List ℕ → T → T

-- ZMRemoteIdentifierObjectSync; a request is the identifiers it is for, and the first argument of
-- `next_request` is the transcoder's limit.
pub record RemoteIdentifierSync (S : Type 0) : Type 0 where
  pub sync_with_transcoder : S
  pub next_request : ℕ → S → Option (List ℕ) × S
  pub set_remote_identifiers_as_needing_download : List ℕ → S → S
  pub add_remote_identifiers_that_need_download : List ℕ → S → S
  pub remote_identifiers_that_will_be_downloaded : S → List ℕ
  pub is_done : S → Bool

module _ (sort : List ℕ → List ℕ) where
  abbrev pub remote_identifier_sync : RemoteIdentifierSync Sync
  remote_identifier_sync = record {
    sync_with_transcoder = init;
    next_request = next_request;
    set_remote_identifiers_as_needing_download = set_as_needing_download sort;
    add_remote_identifiers_that_need_download = add_that_need_download sort;
    remote_identifiers_that_will_be_downloaded = will_be_downloaded;
    is_done = is_done;
  }

-- ZMSimpleListRequestPaginator, over its states `S`; responses are of a type `R`.
pub record ListRequestPaginator (R S : Type 0) : Type 0 where
  pub has_more_to_fetch : S → Bool
  pub paginator : ℕ → Bool → S
  pub next_request : ℕ → S → Option (Query × ℕ) × S
  pub reset_fetching : S → S

pub record IsListRequestPaginator {R S : Type 0} (o : ListRequestPaginator R S) : Type 0 where
  -- "YES if more requests should be made before to fetch the full list"
  pub none_if_done :
      (n : ℕ) (s : S) → o.has_more_to_fetch s ≡ false → o.next_request n s ≡ (none, s)
  -- "this will cause the fetch to restart at the nextPaginatedRequest"
  pub restarts : (n : ℕ) (s : S) → is_some (o.next_request n (o.reset_fetching s)).0 ≡ true
  pub resets : (s : S) → o.has_more_to_fetch (o.reset_fetching s) ≡ true
  -- A new paginator has nothing to fetch before it is reset.
  pub starts_done :
      (size : ℕ) (client : Bool) → o.has_more_to_fetch (o.paginator size client) ≡ false

module _ {R : Type 0} (pages : Pages R) where
  abbrev pub list_request_paginator : ListRequestPaginator R Paginator
  list_request_paginator = record {
    has_more_to_fetch = λ p. p.has_more_to_fetch;
    paginator = Paginator.init;
    next_request = Paginator.next_request pages;
    reset_fetching = Paginator.reset_fetching pages;
  }

  -- The implementation in ZMSimpleListRequestPaginator.m keeps the laws of the interface, for any
  -- transcoder: a paginator that has no more to fetch, as a new one, gives no request, and one that
  -- is reset has more to fetch and gives a request at once, even if one is out.
  pub list_request_paginator-IsListRequestPaginator : IsListRequestPaginator list_request_paginator
  unfolding Paginator.init Paginator.next_request Paginator.reset_fetching Paginator.page_query
      Paginator.ready Single.next_request Single.ready_for_next_request
  list_request_paginator-IsListRequestPaginator = record {
    none_if_done = λ n s h. ground arith;
    restarts = λ n s. ground arith;
    resets = λ s. refl;
    starts_done = λ size client. refl;
  }
