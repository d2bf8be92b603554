-- ===== src/Tests/DispatchTests.antt =====
-- The dispatch of update events at concrete inputs.
use zmessaging_cocoa.Base.{ℕ, ◌+◌, false, some, List, [], ◌∷◌, ◌≡◌, ◌==◌}
use zmessaging_cocoa.States.World.{UpdateEventsPolicy}
use zmessaging_cocoa.Dispatch.Strategy.{
  SyncStrategy, Kinds, select, has_any, process_update_events, process_all_events_in_buffer,
  consume_update_events,
}
use zmessaging_cocoa.Dispatch.Routing.{
  count, recorder, fetch_nothing, routed_events, buffered_events_follow,
}

-- Event 1 is a flow event, event 2 one of the call state.
abbrev kinds : Kinds
kinds = record {
  is_flow_event = λ e. e == 1;
  is_call_state = λ e. e == 2;
  conversation = λ e. some e;
}

abbrev start : SyncStrategy (List ℕ)
start = record {
  outside = 7 ∷ [];
  buffer = record { buffered = 8 ∷ []; consumed = [] };
  torn_down = false;
  saves = 0;
  early_saves = 0;
}

abbrev arrived : SyncStrategy (List ℕ)
arrived =
    process_update_events fetch_nothing (recorder ∷ []) [] kinds (λ t. UpdateEventsPolicy.buffer)
      false (3 ∷ 1 ∷ 2 ∷ []) start

routed_events_example :
    (count 2 arrived.outside ≡ count 2 (7 ∷ []) + 0 + 0)
    × (count 2 arrived.buffer.buffered ≡ count 2 (8 ∷ []) + count 2 (3 ∷ 1 ∷ 2 ∷ []))
routed_events_example = routed_events kinds UpdateEventsPolicy.buffer false 2 (3 ∷ 1 ∷ 2 ∷ []) start

abbrev flow_first : SyncStrategy (List ℕ)
flow_first = consume_update_events fetch_nothing (recorder ∷ []) [] (1 ∷ []) start

buffered_events_follow_example :
    ((process_all_events_in_buffer fetch_nothing (recorder ∷ []) [] arrived).outside
      ≡ (consume_update_events fetch_nothing
          (recorder ∷ [])
          []
          (8 ∷ 3 ∷ 2 ∷ [])
          flow_first).outside)
    × ((process_all_events_in_buffer fetch_nothing (recorder ∷ []) [] arrived).buffer.buffered ≡ [])
unfolding select has_any
buffered_events_follow_example =
    buffered_events_follow fetch_nothing (recorder ∷ []) [] kinds (3 ∷ 1 ∷ 2 ∷ []) start
