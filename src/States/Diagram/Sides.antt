-- ===== src/States/Diagram/Sides.antt =====
-- The diagram and `dataDidChange`, the changes of side and the starts of background work.
use zmessaging_cocoa.Base.{ℕ, true, false, some, ◌≡◌, inl, arith}
use zmessaging_cocoa.States.World.{SyncState, World}
use zmessaging_cocoa.States.Machine.{Machine, send}
use zmessaging_cocoa.States.Requests.{fetch_out_if_complete, task_out_if_complete}
use zmessaging_cocoa.States.Landing.{go_to-Lands}
use zmessaging_cocoa.States.Events.{
  data_did_change, did_enter_background, did_enter_foreground, did_fail_authentication,
  did_request_synchronization, start_background_fetch, start_background_task,
}
use zmessaging_cocoa.States.Loop.{quick_sync_if_due-current}
use zmessaging_cocoa.States.Diagram.{Advances, Moves}

module _ {D : Type 0} (w : World D) where
  pub data_did_change-Advances :
      (s : SyncState) (m : Machine D) → m.current ≡ s → Advances s (data_did_change w s m).current
  unfolding data_did_change fetch_out_if_complete task_out_if_complete
  data_did_change-Advances SyncState.unauthenticated m e =
      ground (arith, quick_sync_if_due-current w m)
  data_did_change-Advances SyncState.background_fetch m e =
      ground (arith, go_to-Lands w SyncState.pre_background m)
  data_did_change-Advances SyncState.background_task m e =
      ground (arith, go_to-Lands w SyncState.pre_background m)
  data_did_change-Advances SyncState.download_last_update_event_id m e =
      ground (arith, go_to-Lands w SyncState.slow_sync_phase_one m)
  data_did_change-Advances SyncState.slow_sync_phase_one m e =
      ground (arith, go_to-Lands w SyncState.slow_sync_phase_two m)
  data_did_change-Advances SyncState.slow_sync_phase_two m e =
      ground (arith, go_to-Lands w SyncState.event_processing m)
  data_did_change-Advances SyncState.update_events_catch_up_phase_one m e = ground (
    arith,
    go_to-Lands w SyncState.download_last_update_event_id (record m { error_in_phase_one = false }),
    go_to-Lands w SyncState.update_events_catch_up_phase_two m,
  )
  data_did_change-Advances SyncState.update_events_catch_up_phase_two m e = ground (
    arith,
    go_to-Lands w SyncState.download_last_update_event_id (record m { error_in_phase_two = false }),
    go_to-Lands w SyncState.event_processing m,
  )
  data_did_change-Advances SyncState.pre_background m e =
      ground (arith, go_to-Lands w SyncState.background m)
  data_did_change-Advances _ m e = inl e

  pub did_enter_background-Moves :
      (s : SyncState) (m : Machine D) → m.current ≡ s → Moves s (did_enter_background w s m).current
  unfolding did_enter_background
  did_enter_background-Moves SyncState.unauthenticated m e =
      ground (arith, go_to-Lands w SyncState.unauthenticated_background m)
  did_enter_background-Moves _ m e = ground (arith, go_to-Lands w SyncState.pre_background m)

  pub did_enter_foreground-Moves :
      (s : SyncState) (m : Machine D) → m.current ≡ s → Moves s (did_enter_foreground w s m).current
  unfolding did_enter_foreground
  did_enter_foreground-Moves SyncState.unauthenticated m e = ground (
    arith,
    go_to-Lands w SyncState.update_events_catch_up_phase_one
        (record m { login = record (m.login) { did_launch_in_foreground = true } }),
  )
  did_enter_foreground-Moves SyncState.unauthenticated_background m e =
      ground (arith, go_to-Lands w SyncState.unauthenticated m)
  did_enter_foreground-Moves _ m e =
      ground (arith, go_to-Lands w SyncState.update_events_catch_up_phase_one m)

  pub did_fail_authentication-Moves :
      (s : SyncState) (m : Machine D)
      → m.current ≡ s
      → Moves s (did_fail_authentication w s m).current
  unfolding did_fail_authentication
  did_fail_authentication-Moves SyncState.unauthenticated m e = inl e
  did_fail_authentication-Moves _ m e = ground (arith, go_to-Lands w SyncState.unauthenticated m)

  pub did_request_synchronization-Moves :
      (s : SyncState) (m : Machine D)
      → m.current ≡ s
      → Moves s (did_request_synchronization w s m).current
  unfolding did_request_synchronization
  did_request_synchronization-Moves SyncState.unauthenticated m e = inl e
  did_request_synchronization-Moves _ m e =
      ground (arith, go_to-Lands w SyncState.update_events_catch_up_phase_one m)

  pub start_background_fetch-Moves :
      (h : ℕ) (m : Machine D) → Moves m.current (start_background_fetch w h m).current
  unfolding start_background_fetch send
  start_background_fetch-Moves h m = ground (
    arith,
    go_to-Lands w SyncState.background_fetch
        (record m { fetch = record (m.fetch) { handler = some h } }),
  )

  pub start_background_task-Moves :
      (h : ℕ) (m : Machine D) → Moves m.current (start_background_task w h m).current
  unfolding start_background_task send
  start_background_task-Moves h m = ground (
    arith,
    go_to-Lands w SyncState.background_task
        (record m { task = record (m.task) { handler = some h } }),
  )
