-- ===== src/Syncs/Whitelist/Laws.antt =====
-- ZMDownstreamObjectSyncWithWhitelist.m: only whitelisted objects are downloaded.
use zmessaging_cocoa.Base.{
  ℕ, Bool, true, Option, none, some, List, [], ◌∷◌, ◌≡◌, arith, Option-cases, inl, inr,
}
use zmessaging_cocoa.States.World.{ResponseStatus}
use zmessaging_cocoa.Syncs.RemoteIdentifiers.{member}
use zmessaging_cocoa.Syncs.RemoteIdentifiers.Sets.{member-union}
use zmessaging_cocoa.Syncs.Modified.{intersect}
use zmessaging_cocoa.Syncs.Modified.Laws.{member-intersect}
use zmessaging_cocoa.Syncs.Downstream.{Parts, Downstream, DownstreamTranscoder, Context, Entity}
use zmessaging_cocoa.Syncs.Downstream as Inner
use zmessaging_cocoa.Syncs.OperationSet as Operations
use zmessaging_cocoa.Syncs.Downstream.Loop.{response_ends}
use zmessaging_cocoa.Syncs.Downstream.Pending.{
  pending_in, Shrinks, pending-objects_did_change, next_request-Shrinks,
}
use zmessaging_cocoa.Syncs.Whitelist.{
  Whitelisted, init, white_list_object, objects_did_change, next_request, process_response,
  with_inner,
}

module _ {D : Type 0} (p : Parts D) where
  -- Every object that is to be downloaded was whitelisted.
  pub record IsListed (s : Whitelisted D) : Type 0 where
    pub listed : (y : ℕ) → pending_in y s.inner ≡ true → member y s.whitelist ≡ true

  -- What happens to the sync.
  pub data Event : Type 0 where
    lists : ℕ → Event
    changes : List ℕ → Event
    asks : Event
    responds : ResponseStatus → ℕ → Event

  abbrev after_asking : Whitelisted D → Option (Option (ℕ × ℕ) × Whitelisted D) → Whitelisted D
  after_asking s none = s
  after_asking s (some (r, t)) = t

  unfoldable pub step : Whitelisted D → Event → Whitelisted D
  step s (lists x) = white_list_object p x s
  step s (changes xs) = objects_did_change p xs s
  step s asks = after_asking s (next_request p s)
  step s (responds result x) = process_response p result x s

  asked-IsListed :
      (s : Whitelisted D) (r : Option (Option (ℕ × ℕ) × Downstream D))
      → IsListed s
      → Shrinks p s.inner r
      → IsListed (after_asking s (with_inner p s r))
  asked-IsListed s none h k = h
  asked-IsListed s (some (r, t)) h k = record { listed = λ y e. h.listed y (k y e) }

  step-IsListed : (s : Whitelisted D) (e : Event) → IsListed s → IsListed (step s e)
  unfolding step white_list_object objects_did_change next_request process_response member
  step-IsListed s (lists x) h = record {
    listed = λ y k. ground (
      arith,
      pending-objects_did_change p y (x ∷ []) s.inner k,
      h.listed y,
      member-union y s.whitelist (x ∷ []),
    );
  }
  step-IsListed s (changes xs) h = record {
    listed = λ y k. ground (
      arith,
      pending-objects_did_change p y (intersect s.whitelist xs) s.inner k,
      h.listed y,
      member-intersect y s.whitelist xs,
    );
  }
  step-IsListed s asks h =
      asked-IsListed s (Inner.next_request p s.inner) h (next_request-Shrinks p s.inner)
  step-IsListed s (responds result x) h = record {
    listed = λ y k. ground (arith, (response_ends p result x y s.inner).0, h.listed y);
  }

  -- An object stays on the whitelist whatever happens.
  whitelist-step :
      (s : Whitelisted D) (e : Event) (y : ℕ)
      → member y s.whitelist ≡ true
      → member y (step s e).whitelist ≡ true
  unfolding step white_list_object objects_did_change next_request process_response member
  whitelist-step s (lists x) y h = ground (arith, member-union y s.whitelist (x ∷ []))
  whitelist-step s (changes xs) y h = h
  whitelist-step s asks y h = elim (Option-cases (Inner.next_request p s.inner)) [
    | inl e ↦ ground (arith, e)
    | inr (r, e) ↦ ground (arith, e)
  ]
  whitelist-step s (responds result x) y h = h

  unfoldable pub run : List Event → Whitelisted D → Whitelisted D
  unfolding step
  run [] s = s
  run (e ∷ es) s = run es (step s e)

  -- In every run from a state in which it is so, whatever is to be downloaded stands on the whitelist;
  -- and what stands there stays: nothing is ever taken off it, whatever the header says.
  pub run-IsListed :
      (es : List Event) (s : Whitelisted D)
      → IsListed s
      → IsListed (run es s)
        × ((y : ℕ) → member y s.whitelist ≡ true → member y (run es s).whitelist ≡ true)
  unfolding run
  run-IsListed [] s h = (h, λ y k. k)
  run-IsListed (e ∷ es) s h =
      let later = run-IsListed es (step s e) (step-IsListed s e h) in
      (later.0, λ y k. later.1 y (whitelist-step s e y k))

-- At the start nothing is to be downloaded.
pub init-IsListed :
    {D : Type 0} (t : DownstreamTranscoder D) (c : Context D) (e : Entity D)
    (predicate : D → ℕ → Bool) (d : D)
    → let (parts, s) = init t c e predicate d in IsListed parts s
unfolding init member Inner.init_with_filter Operations.init
init-IsListed t c e predicate d = record { listed = λ y k. k }
