-- ===== src/States/Interface.antt =====
-- The interfaces of ZMSyncState.h and ZMStateMachineDelegate.h, filled by the states and the machine.
use zmessaging_cocoa.Base.{Bool, Option, List}
use zmessaging_cocoa.States.World.{SyncState, Transcoder, Request, UpdateEventsPolicy, World}
use zmessaging_cocoa.States.Machine.{Machine, leave}
use zmessaging_cocoa.States.Transitions.{
  enter, go_to, start_quick_sync, start_slow_sync, did_start_slow_sync,
}
use zmessaging_cocoa.States.Requests.{state_request, next_request_from}
use zmessaging_cocoa.States.Events.{
  data_did_change, did_enter_background, did_enter_foreground, did_fail_authentication,
  did_request_synchronization, update_events_policy, supports_background_fetch,
}

-- ZMSyncState, over the machine's states `M`; what it refers to is in there too.
pub record SyncStateObject (M : Type 0) : Type 0 where
  pub update_events_policy : UpdateEventsPolicy
  pub supports_background_fetch : Bool
  pub did_request_synchronization : M → M
  pub did_fail_authentication : M → M
  pub did_enter_background : M → M
  pub did_enter_foreground : M → M
  pub did_enter_state : M → M
  pub did_leave_state : M → M
  pub data_did_change : M → M
  pub next_request : M → Option Request × M
  pub next_request_from_transcoders : List Transcoder → M → Option Request × M

-- What the states ask of the machine: the rest of ZMStateMachineDelegate.
pub record StateMachineDelegate (M : Type 0) : Type 0 where
  pub start_quick_sync : M → M
  pub start_slow_sync : M → M
  pub is_update_event_stream_active : M → Bool
  pub current_state : M → SyncState
  pub go_to_state : SyncState → M → M
  pub did_start_slow_sync : List Transcoder → M → M

module _ {D : Type 0} (w : World D) where
  abbrev pub state_object : SyncState → SyncStateObject (Machine D)
  state_object s = record {
    update_events_policy = update_events_policy s;
    supports_background_fetch = supports_background_fetch s;
    did_request_synchronization = did_request_synchronization w s;
    did_fail_authentication = did_fail_authentication w s;
    did_enter_background = did_enter_background w s;
    did_enter_foreground = did_enter_foreground w s;
    did_enter_state = enter w (go_to w) s;
    did_leave_state = leave w s;
    data_did_change = data_did_change w s;
    next_request = state_request w s;
    next_request_from_transcoders = next_request_from w;
  }

  abbrev pub state_machine_delegate : StateMachineDelegate (Machine D)
  state_machine_delegate = record {
    start_quick_sync = start_quick_sync w (go_to w);
    start_slow_sync = start_slow_sync w (go_to w);
    is_update_event_stream_active = λ m. m.is_stream_active;
    current_state = λ m. m.current;
    go_to_state = go_to w;
    did_start_slow_sync = did_start_slow_sync w;
  }
