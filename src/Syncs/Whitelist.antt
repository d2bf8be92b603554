-- ===== src/Syncs/Whitelist.antt =====
-- ZMDownstreamObjectSyncWithWhitelist.m: a downstream sync that only looks at objects that were
-- whitelisted. It is the transcoder of the sync inside and passes every call on, so that one has the
-- transcoder itself here.
pub mod Laws
use zmessaging_cocoa.Base.{ℕ, Bool, false, Option, none, some, List, [], ◌∷◌}
use zmessaging_cocoa.States.World.{ResponseStatus}
use zmessaging_cocoa.Syncs.RemoteIdentifiers.{union}
use zmessaging_cocoa.Syncs.Modified.{intersect}
use zmessaging_cocoa.Syncs.Downstream.{
  DownstreamTranscoder, Context, Entity, Parts, Downstream, ContextChangeTracker, OutstandingItems,
}
use zmessaging_cocoa.Syncs.Downstream as Inner

-- ZMObjectSync: a change tracker, outstanding items and requests, over the states `S`.
pub record ObjectSync (S : Type 0) : Type 0 where
  pub tracker : ContextChangeTracker S
  pub outstanding : OutstandingItems S
  pub next : S → Option (Option (ℕ × ℕ) × S)

pub record Whitelisted (D : Type 0) : Type 0 where
  pub whitelist : List ℕ
  pub inner : Downstream D

module _ {D : Type 0} (t : DownstreamTranscoder D) (c : Context D) (e : Entity D) where
  unfoldable pub init : (D → ℕ → Bool) → D → Parts D × Whitelisted D
  init predicate d =
      let (parts, inner) = Inner.init_with_filter t c e predicate none d in
      (parts, record { whitelist = []; inner = inner })

module _ {D : Type 0} (p : Parts D) where
  unfoldable pub white_list_object : ℕ → Whitelisted D → Whitelisted D
  white_list_object x s = record {
    whitelist = union s.whitelist (x ∷ []);
    inner = Inner.objects_did_change p (x ∷ []) s.inner;
  }

  unfoldable pub objects_did_change : List ℕ → Whitelisted D → Whitelisted D
  objects_did_change xs s = record s {
    inner = Inner.objects_did_change p (intersect s.whitelist xs) s.inner;
  }

  abbrev pub with_inner :
      Whitelisted D
      → Option (Option (ℕ × ℕ) × Downstream D)
      → Option (Option (ℕ × ℕ) × Whitelisted D)
  with_inner s none = none
  with_inner s (some (request, inner)) = some (request, record s { inner = inner })

  unfoldable pub next_request : Whitelisted D → Option (Option (ℕ × ℕ) × Whitelisted D)
  next_request s = with_inner s (Inner.next_request p s.inner)

  -- The completion handler is the inner sync's.
  unfoldable pub process_response : ResponseStatus → ℕ → Whitelisted D → Whitelisted D
  process_response result x s = record s { inner = Inner.process_response p result x s.inner }

  abbrev pub object_sync : ObjectSync (Whitelisted D)
  object_sync = record {
    tracker = record {
      objects_did_change = objects_did_change;
      fetch_request_for_tracked_objects = λ s x. false;
      add_tracked_objects = λ xs s. s;
    };
    outstanding = record { has_outstanding_items = λ s. Inner.has_outstanding_items p s.inner };
    next = next_request;
  }

-- ZMDownstreamObjectSyncWithWhitelist, as its header declares it.
pub record WhitelistSync (D : Type 0) : Type 0 where
  pub start :
      DownstreamTranscoder D → Context D → Entity D → (D → ℕ → Bool) → D → Parts D × Whitelisted D
  pub white_list : Parts D → ℕ → Whitelisted D → Whitelisted D
  pub next : Parts D → Whitelisted D → Option (Option (ℕ × ℕ) × Whitelisted D)

abbrev pub whitelist_sync : {D : Type 0} → WhitelistSync D
whitelist_sync = record { start = init; white_list = white_list_object; next = next_request }
