-- ===== src/States/Events/Advance.antt =====
-- `dataDidChange` of the states.
use zmessaging_cocoa.Base.{false, not, ◌&&◌, ◌||◌, if◌then◌else◌}
use zmessaging_cocoa.States.World.{SyncState, World}
use zmessaging_cocoa.States.Machine.{Machine, can_go_to_background}
use zmessaging_cocoa.States.Transitions.{go_to, start_slow_sync}
use zmessaging_cocoa.States.Requests.{
  quick_sync_if_due, fetch_out_if_complete, task_out_if_complete,
}

module _ {D : Type 0} (w : World D) where
  abbrev pub last_event_data_did_change : Machine D → Machine D
  last_event_data_did_change m =
      if w.has_last_update_event_id m.outside
        || not (w.is_downloading_last_update_event_id m.outside)
      then go_to w SyncState.slow_sync_phase_one m
      else m

  abbrev pub slow_sync_one_data_did_change : Machine D → Machine D
  slow_sync_one_data_did_change m =
      if w.connections_done m.outside && w.conversations_done m.outside
      then go_to w SyncState.slow_sync_phase_two m
      else m

  abbrev pub slow_sync_two_data_did_change : Machine D → Machine D
  slow_sync_two_data_did_change m =
      if w.users_done m.outside then go_to w SyncState.event_processing m else m

  abbrev pub catch_up_one_data_did_change : Machine D → Machine D
  catch_up_one_data_did_change m =
      if m.error_in_phase_one
      then start_slow_sync w (go_to w) (record m { error_in_phase_one = false })
      else if not (w.is_downloading_missing_notifications m.outside) && m.is_stream_active
      then go_to w SyncState.update_events_catch_up_phase_two m
      else m

  abbrev pub catch_up_two_data_did_change : Machine D → Machine D
  catch_up_two_data_did_change m =
      if m.error_in_phase_two
      then start_slow_sync w (go_to w) (record m { error_in_phase_two = false })
      else if not (w.is_downloading_missing_notifications m.outside)
      then go_to w SyncState.event_processing m
      else m

  abbrev pub pre_background_data_did_change : Machine D → Machine D
  pre_background_data_did_change m =
      if can_go_to_background w m.outside then go_to w SyncState.background m else m

  -- `dataDidChange` of the current state; the base class does nothing.
  unfoldable pub data_did_change : SyncState → Machine D → Machine D
  data_did_change SyncState.unauthenticated m = quick_sync_if_due w m
  data_did_change SyncState.download_last_update_event_id m = last_event_data_did_change m
  data_did_change SyncState.slow_sync_phase_one m = slow_sync_one_data_did_change m
  data_did_change SyncState.slow_sync_phase_two m = slow_sync_two_data_did_change m
  data_did_change SyncState.update_events_catch_up_phase_one m = catch_up_one_data_did_change m
  data_did_change SyncState.update_events_catch_up_phase_two m = catch_up_two_data_did_change m
  data_did_change SyncState.pre_background m = pre_background_data_did_change m
  data_did_change SyncState.background_fetch m = fetch_out_if_complete w m
  data_did_change SyncState.background_task m = task_out_if_complete w m
  data_did_change _ m = m
