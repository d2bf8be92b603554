-- ===== src/Dispatch/Strategy.antt =====
-- ZMSyncStrategy.m: events are decrypted, prefetched for and passed to the transcoders and request
-- strategies. An event is its identifier; the strategies' states together are of the type `T`. The
-- fetch of a batch is the data model library's, `fetch`, with results of the type `R`.
use zmessaging_cocoa.Base.{
  ℕ, suc, Bool, true, false, not, Option, none, some, is_some, List, [], ◌∷◌, ◌++◌, if◌then◌else◌,
}
use zmessaging_cocoa.States.World.{UpdateEventsPolicy}
use zmessaging_cocoa.Syncs.RemoteIdentifiers.{union}
use zmessaging_cocoa.Syncs.EventsBuffer.{Buffer, add_update_event, process_all_events}
use zmessaging_cocoa.Dispatch.Generators.{RequestGenerator, next_request}

-- What the fetch request batch is filled with.
pub record Batch : Type 0 where
  pub nonces : List ℕ
  pub conversations : List ℕ

-- ZMUpdateEventDecryptor and ZMObjectStrategy; an optional method or a protocol that is missing is
-- `none`. A decryptor that returns nil leaves the events.
pub record ObjectStrategy (T R : Type 0) : Type 0 where
  pub decrypted_update_events : Option (List ℕ → T → Option (List ℕ) × T)
  pub request_generators : List (RequestGenerator T)
  pub is_slow_sync_done : T → Bool
  pub set_needs_slow_sync : T → T
  pub process_events : Option (List ℕ → Bool → R → T → T)
  pub message_nonces_to_prefetch : Option (List ℕ → List ℕ)
  pub conversations_to_prefetch : Option (List ℕ → List ℕ)

-- What the strategy keeps besides its strategies' states; `saves` is how often it has enqueued a
-- delayed save, and `early_saves` how often one if there are too many changes.
pub record SyncStrategy (T : Type 0) : Type 0 where
  pub outside : T
  pub buffer : Buffer
  pub torn_down : Bool
  pub saves : ℕ
  pub early_saves : ℕ

abbrev optional_set : Option (List ℕ → List ℕ) → List ℕ → List ℕ
optional_set none events = []
optional_set (some f) events = f events

unfoldable pub select : (ℕ → Bool) → List ℕ → List ℕ
select p [] = []
select p (e ∷ es) = let rest = select p es in if p e then e ∷ rest else rest

unfoldable pub has_any : List ℕ → Bool
has_any [] = false
has_any (e ∷ es) = true

pub record Kinds : Type 0 where
  pub is_flow_event : ℕ → Bool
  pub is_call_state : ℕ → Bool
  pub conversation : ℕ → Option ℕ

unfoldable pub add_all : List ℕ → Buffer → Buffer
add_all [] b = b
add_all (e ∷ es) b = add_all es (add_update_event e b)

module _ {T R : Type 0} (fetch : Batch → T → R × T) where
  unfoldable pub decrypt_update_events : List (ObjectStrategy T R) → List ℕ → T → List ℕ × T
  decrypt_update_events [] events t = (events, t)
  decrypt_update_events (s ∷ ss) events t = elim s.decrypted_update_events [
    | none ↦ decrypt_update_events ss events t
    | some decrypt ↦
        let (decrypted, after) = decrypt events t in
        (elim decrypted [
          | none ↦ decrypt_update_events ss events after
          | some new ↦ decrypt_update_events ss new after
        ])
  ]

  unfoldable pub fetch_batch : List (ObjectStrategy T R) → List ℕ → Batch → Batch
  fetch_batch [] events b = b
  fetch_batch (s ∷ ss) events b = fetch_batch ss events (record {
    nonces = union b.nonces (optional_set s.message_nonces_to_prefetch events);
    conversations = union b.conversations (optional_set s.conversations_to_prefetch events);
  })

  abbrev pub no_batch : Batch
  no_batch = record { nonces = []; conversations = [] }

  -- A strategy that is none of the protocol's is passed over.
  unfoldable pub pass_events : List (ObjectStrategy T R) → List ℕ → Bool → R → T → T
  pass_events [] events live r t = t
  pass_events (s ∷ ss) events live r t = elim s.process_events [
    | none ↦ pass_events ss events live r t
    | some process ↦ pass_events ss events live r (process events live r t)
  ]

  abbrev pub digest : List (ObjectStrategy T R) → List (ObjectStrategy T R) → List ℕ → Bool → T → T
  digest all receivers events live t =
      let (decrypted, t1) = decrypt_update_events all events t in
      let (r, t2) = fetch (fetch_batch all decrypted no_batch) t1 in
      pass_events receivers decrypted live r t2

  module _ (transcoders strategies : List (ObjectStrategy T R)) where
    unfoldable pub consume_update_events : List ℕ → SyncStrategy T → SyncStrategy T
    consume_update_events events s = record s {
      outside =
          digest (transcoders ++ strategies) (transcoders ++ strategies) events true s.outside;
      early_saves = suc s.early_saves;
    }

    unfoldable pub process_downloaded_events : List ℕ → SyncStrategy T → SyncStrategy T
    process_downloaded_events events s = record s {
      outside = digest (transcoders ++ strategies) transcoders events false s.outside;
    }

    unfoldable pub process_all_events_in_buffer : SyncStrategy T → SyncStrategy T
    process_all_events_in_buffer s =
        let consumed = consume_update_events s.buffer.buffered s in
        record consumed { buffer = process_all_events consumed.buffer; saves = suc consumed.saves }

    abbrev consume_any : List ℕ → SyncStrategy T → SyncStrategy T
    consume_any events s = if has_any events then consume_update_events events s else s

    -- The events that are no flow events, and those of the call state, by the machine's policy.
    unfoldable pub apply_policy :
        UpdateEventsPolicy → List ℕ → List ℕ → SyncStrategy T → SyncStrategy T
    apply_policy UpdateEventsPolicy.ignore call_state not_flow s = consume_any call_state s
    apply_policy UpdateEventsPolicy.buffer call_state not_flow s = record s {
      buffer = add_all not_flow s.buffer;
    }
    apply_policy UpdateEventsPolicy.process call_state not_flow s = consume_any not_flow s

    -- `processUpdateEvents:ignoreBuffer:`; the machine's policy is read after the flow events.
    unfoldable pub process_update_events :
        Kinds → (T → UpdateEventsPolicy) → Bool → List ℕ → SyncStrategy T → SyncStrategy T
    process_update_events kinds policy ignore_buffer events s =
        let whole = consume_update_events events s in
        let flow = consume_any (select kinds.is_flow_event events) s in
        let routed =
          apply_policy (policy flow.outside) (select kinds.is_call_state events)
            (select (λ e. not (kinds.is_flow_event e)) events) flow in
        if ignore_buffer
        then record whole { saves = suc whole.saves }
        else record routed { saves = suc routed.saves }

    -- `conversationIdsThatHaveBufferedUpdatesForCallState`; mapping leaves nil out.
    unfoldable pub buffered_call_conversations : Kinds → List ℕ → List ℕ
    buffered_call_conversations kinds [] = []
    buffered_call_conversations kinds (e ∷ es) =
        let rest = buffered_call_conversations kinds es in
        if kinds.is_call_state e
        then (elim (kinds.conversation e) [ none ↦ rest | some c ↦ c ∷ rest ])
        else rest

    -- `nextRequest`: the state machine's, `machine`, or the first of the request strategies'.
    -- The request strategies are generators themselves.
    unfoldable pub next_strategy_request :
        (T → Option ℕ × T) → List (RequestGenerator T) → SyncStrategy T → Option ℕ × SyncStrategy T
    next_strategy_request machine generators s =
        let (first, after) = machine s.outside in
        let (second, later) = next_request generators after in
        if s.torn_down
        then (none, s)
        else if is_some first
        then (first, record s { outside = after })
        else (second, record s { outside = later })

    unfoldable pub tear_down : (T → T) → SyncStrategy T → SyncStrategy T
    tear_down strategies_torn_down s = record s {
      torn_down = true;
      outside = strategies_torn_down s.outside;
    }
