-- ===== src/States/Events/Sides.antt =====
-- What the states do when the application changes sides, the authentication fails or a
-- synchronisation is asked for, and their policies.
use zmessaging_cocoa.Base.{true, if◌then◌else◌}
use zmessaging_cocoa.States.World.{SyncState, World, UpdateEventsPolicy}
use zmessaging_cocoa.States.Machine.{Machine, is_done_with_login}
use zmessaging_cocoa.States.Transitions.{go_to, start_quick_sync}

-- `updateEventsPolicy`; the base class processes, and the pre-background state does not override it.
unfoldable pub update_events_policy : SyncState → UpdateEventsPolicy
update_events_policy SyncState.event_processing = UpdateEventsPolicy.process
update_events_policy SyncState.pre_background = UpdateEventsPolicy.process
update_events_policy SyncState.slow_sync_phase_one = UpdateEventsPolicy.buffer
update_events_policy SyncState.slow_sync_phase_two = UpdateEventsPolicy.buffer
update_events_policy SyncState.update_events_catch_up_phase_one = UpdateEventsPolicy.buffer
update_events_policy SyncState.update_events_catch_up_phase_two = UpdateEventsPolicy.buffer
update_events_policy SyncState.download_last_update_event_id = UpdateEventsPolicy.buffer
update_events_policy _ = UpdateEventsPolicy.ignore

module _ {D : Type 0} (w : World D) where
  abbrev pub unauthenticated_did_enter_foreground : Machine D → Machine D
  unauthenticated_did_enter_foreground m =
      let noted = record m { login = record (m.login) { did_launch_in_foreground = true } } in
      if is_done_with_login w m.outside then start_quick_sync w (go_to w) noted else noted

  unfoldable pub did_enter_background : SyncState → Machine D → Machine D
  did_enter_background SyncState.unauthenticated m = go_to w SyncState.unauthenticated_background m
  did_enter_background SyncState.unauthenticated_background m = m
  did_enter_background SyncState.background m = m
  did_enter_background SyncState.pre_background m = m
  did_enter_background SyncState.background_fetch m = m
  did_enter_background SyncState.background_task m = m
  did_enter_background _ m = go_to w SyncState.pre_background m

  unfoldable pub did_enter_foreground : SyncState → Machine D → Machine D
  did_enter_foreground SyncState.unauthenticated m = unauthenticated_did_enter_foreground m
  did_enter_foreground SyncState.unauthenticated_background m = go_to w SyncState.unauthenticated m
  did_enter_foreground SyncState.background m = start_quick_sync w (go_to w) m
  did_enter_foreground SyncState.pre_background m = start_quick_sync w (go_to w) m
  did_enter_foreground SyncState.background_fetch m = start_quick_sync w (go_to w) m
  did_enter_foreground SyncState.background_task m = start_quick_sync w (go_to w) m
  did_enter_foreground _ m = m

  unfoldable pub did_fail_authentication : SyncState → Machine D → Machine D
  did_fail_authentication SyncState.unauthenticated m = m
  did_fail_authentication SyncState.unauthenticated_background m = m
  did_fail_authentication _ m = go_to w SyncState.unauthenticated m

  unfoldable pub did_request_synchronization : SyncState → Machine D → Machine D
  did_request_synchronization SyncState.unauthenticated m = m
  did_request_synchronization SyncState.unauthenticated_background m = m
  did_request_synchronization SyncState.background m = m
  did_request_synchronization SyncState.pre_background m = m
  did_request_synchronization SyncState.background_fetch m = m
  did_request_synchronization SyncState.background_task m = m
  did_request_synchronization _ m = start_quick_sync w (go_to w) m
