-- ===== src/Dispatch/Calls.antt =====
-- ZMSyncStrategy.h, filled by the event handling of ZMSyncStrategy.m together with the state machine
-- that it owns: the strategies act on the machine's outside, and the machine's current state gives
-- the policy for update events.
use zmessaging_cocoa.Base.{ℕ, Bool, List}
use zmessaging_cocoa.States.World.{World}
use zmessaging_cocoa.States.Machine.{Machine}
use zmessaging_cocoa.States.Events.{Event, step, update_events_policy}
use zmessaging_cocoa.Dispatch.Strategy.{
  Batch, ObjectStrategy, SyncStrategy, Kinds, process_update_events, process_downloaded_events,
  tear_down,
}

-- ZMSyncStrategy, over its states `S`.
pub record SyncStrategyCalls (S : Type 0) : Type 0 where
  pub did_interrupt_update_events_stream : S → S
  pub did_establish_update_events_stream : S → S
  pub data_did_change : S → S
  pub process_update_events : List ℕ → Bool → S → S
  pub process_downloaded_events : List ℕ → S → S
  pub tear_down : S → S
  pub start_background_fetch : ℕ → S → S
  pub start_background_task : ℕ → S → S

module _ {D R : Type 0} (w : World D) (fetch : Batch → Machine D → R × Machine D)
    (transcoders strategies : List (ObjectStrategy (Machine D) R)) (kinds : Kinds) where
  -- A message to the state machine.
  abbrev pub to_machine : Event D → SyncStrategy (Machine D) → SyncStrategy (Machine D)
  to_machine e s = record s { outside = step w s.outside e }

  -- The policy is that of the machine's current state.
  unfoldable pub receive_events :
      List ℕ → Bool → SyncStrategy (Machine D) → SyncStrategy (Machine D)
  receive_events events ignore s =
      process_update_events fetch transcoders strategies kinds (λ m. update_events_policy m.current)
        ignore events s

  abbrev pub sync_strategy_calls :
      (Machine D → Machine D) → SyncStrategyCalls (SyncStrategy (Machine D))
  sync_strategy_calls torn_down = record {
    did_interrupt_update_events_stream = to_machine Event.stream_interrupted;
    did_establish_update_events_stream = to_machine Event.stream_established;
    data_did_change = to_machine Event.data_changes;
    process_update_events = receive_events;
    process_downloaded_events = process_downloaded_events fetch transcoders strategies;
    tear_down = tear_down fetch transcoders strategies torn_down;
    start_background_fetch = λ h. to_machine (Event.starts_fetch h);
    start_background_task = λ h. to_machine (Event.starts_task h);
  }
