-- ===== src/Syncs/Contracts/Events.antt =====
-- ZMUpdateEventsBuffer.h. An event is its identifier.
use zmessaging_cocoa.Base.{ℕ, false, List, [], ◌∷◌, ◌++◌, ◌≡◌, refl, arith, ==_refl, ◌==◌}
use zmessaging_cocoa.Syncs.EventsBuffer.{
  Buffer, init, add_update_event, process_all_events, discard_all_update_events,
  discard_update_event, remove_first,
}

-- The consumer, over its states `C`.
pub record UpdateEventConsumer (C : Type 0) : Type 0 where
  pub consume_update_events : List ℕ → C → C

-- ZMUpdateEventsFlushableCollection, over its states `S`.
pub record FlushableCollection (S : Type 0) : Type 0 where
  pub process_all_events_in_buffer : S → S

-- ZMUpdateEventsBuffer, which is such a collection.
pub record UpdateEventsBuffer (S : Type 0) : Type 0 where
  pub buffer_with_update_event_consumer : S
  pub discard_all_update_events : S → S
  pub discard_update_event_with_identifier : ℕ → S → S
  pub add_update_event : ℕ → S → S
  pub update_events : S → List ℕ

pub record IsUpdateEventsBuffer {S : Type 0} (f : FlushableCollection S) (o : UpdateEventsBuffer S)
    (consumed : S → List ℕ) : Type 0 where
  -- "process all events in the buffer"
  pub processes :
      (s : S) → consumed (f.process_all_events_in_buffer s) ≡ consumed s ++ o.update_events s
  pub empties : (s : S) → o.update_events (f.process_all_events_in_buffer s) ≡ []
  -- "discard all events in the buffer"
  pub discards : (s : S) → o.update_events (o.discard_all_update_events s) ≡ []
  -- "discard the event with this identifier"
  pub discards_one :
      (e : ℕ)
      → o.discard_update_event_with_identifier e
          (o.add_update_event e o.buffer_with_update_event_consumer)
        ≡ o.buffer_with_update_event_consumer
  pub keeps_other :
      (e d : ℕ)
      → (e == d) ≡ false
      → o.discard_update_event_with_identifier d
          (o.add_update_event e o.buffer_with_update_event_consumer)
        ≡ o.add_update_event e o.buffer_with_update_event_consumer
  pub adds :
      (e : ℕ) (s : S) → o.update_events (o.add_update_event e s) ≡ o.update_events s ++ e ∷ []
  -- What is discarded is not consumed.
  pub not_consumed : (s : S) → consumed (o.discard_all_update_events s) ≡ consumed s

abbrev pub flushable_collection : FlushableCollection Buffer
flushable_collection = record { process_all_events_in_buffer = process_all_events }

abbrev pub update_events_buffer : UpdateEventsBuffer Buffer
update_events_buffer = record {
  buffer_with_update_event_consumer = init;
  discard_all_update_events = discard_all_update_events;
  discard_update_event_with_identifier = discard_update_event;
  add_update_event = add_update_event;
  update_events = λ b. b.buffered;
}

-- The implementation in ZMUpdateEventsBuffer.m keeps the laws of the interface: processing gives the
-- consumer all buffered events in order and leaves none, discarding leaves none either and gives
-- the consumer nothing, events are added at the end, and discarding by an identifier takes out the
-- event with it and no other.
pub update_events_buffer-IsUpdateEventsBuffer :
    IsUpdateEventsBuffer flushable_collection update_events_buffer (λ b. b.consumed)
unfolding init add_update_event process_all_events discard_all_update_events discard_update_event
    remove_first
update_events_buffer-IsUpdateEventsBuffer = record {
  processes = λ s. refl;
  empties = λ s. refl;
  discards = λ s. refl;
  discards_one = λ e. ground (arith, ==_refl e);
  keeps_other = λ e d h. ground arith;
  adds = λ e s. refl;
  not_consumed = λ s. refl;
}
