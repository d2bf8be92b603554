-- ===== src/States/Invariant/Sides.antt =====
-- The invariant through `dataDidChange`, the changes of side and the starts of background work.
use zmessaging_cocoa.Base.{ℕ, true, false, some, refl, arith, tally, if_elim}
use zmessaging_cocoa.States.World.{SyncState, World}
use zmessaging_cocoa.States.Machine.{Machine, send}
use zmessaging_cocoa.States.Invariant.{Inv, go_to-Inv, go_to_keeps}
use zmessaging_cocoa.States.Events.{
  data_did_change, did_enter_background, did_enter_foreground, did_fail_authentication,
  did_request_synchronization, start_background_fetch, start_background_task,
}
use zmessaging_cocoa.States.Invariant.Requests.{
  quick_sync_if_due-Inv, fetch_out_if_complete-Inv, task_out_if_complete-Inv,
}

module _ {D : Type 0} (w : World D) where
  pub data_did_change-Inv : (s : SyncState) (m : Machine D) → Inv m → Inv (data_did_change w s m)
  unfolding data_did_change
  data_did_change-Inv SyncState.unauthenticated m v = quick_sync_if_due-Inv w m v
  data_did_change-Inv SyncState.background_fetch m v = fetch_out_if_complete-Inv w m v
  data_did_change-Inv SyncState.background_task m v = task_out_if_complete-Inv w m v
  data_did_change-Inv SyncState.download_last_update_event_id m v =
      ground (arith, go_to_keeps w SyncState.slow_sync_phase_one m)
  data_did_change-Inv SyncState.slow_sync_phase_one m v =
      ground (arith, go_to_keeps w SyncState.slow_sync_phase_two m)
  data_did_change-Inv SyncState.slow_sync_phase_two m v =
      ground (arith, go_to_keeps w SyncState.event_processing m)
  data_did_change-Inv SyncState.update_events_catch_up_phase_one m v = ground (
    arith,
    go_to_keeps w SyncState.download_last_update_event_id (record m { error_in_phase_one = false }),
    go_to_keeps w SyncState.update_events_catch_up_phase_two m,
  )
  data_did_change-Inv SyncState.update_events_catch_up_phase_two m v = ground (
    arith,
    go_to_keeps w SyncState.download_last_update_event_id (record m { error_in_phase_two = false }),
    go_to_keeps w SyncState.event_processing m,
  )
  data_did_change-Inv SyncState.pre_background m v =
      ground (arith, go_to_keeps w SyncState.background m)
  data_did_change-Inv _ m v = v

  pub did_enter_background-Inv :
      (s : SyncState) (m : Machine D) → Inv m → Inv (did_enter_background w s m)
  unfolding did_enter_background
  did_enter_background-Inv SyncState.unauthenticated m v =
      go_to_keeps w SyncState.unauthenticated_background m refl refl v
  did_enter_background-Inv _ m v = ground (arith, go_to_keeps w SyncState.pre_background m)

  pub foreground_noted :
      (m : Machine D)
      → Inv m
      → Inv (record m { login = record (m.login) { did_launch_in_foreground = true } })
  foreground_noted m v = ground arith

  pub did_enter_foreground-Inv :
      (s : SyncState) (m : Machine D) → Inv m → Inv (did_enter_foreground w s m)
  unfolding did_enter_foreground
  did_enter_foreground-Inv SyncState.unauthenticated m v =
      let noted = foreground_noted m v in
      if_elim Inv _ _ _
        (λ _. go_to_keeps w SyncState.update_events_catch_up_phase_one _ refl refl noted)
        (λ _. noted)
  did_enter_foreground-Inv SyncState.unauthenticated_background m v =
      go_to_keeps w SyncState.unauthenticated m refl refl v
  did_enter_foreground-Inv _ m v =
      ground (arith, go_to_keeps w SyncState.update_events_catch_up_phase_one m)

  pub did_fail_authentication-Inv :
      (s : SyncState) (m : Machine D) → Inv m → Inv (did_fail_authentication w s m)
  unfolding did_fail_authentication
  did_fail_authentication-Inv SyncState.unauthenticated m v = v
  did_fail_authentication-Inv _ m v = ground (arith, go_to_keeps w SyncState.unauthenticated m)

  pub did_request_synchronization-Inv :
      (s : SyncState) (m : Machine D) → Inv m → Inv (did_request_synchronization w s m)
  unfolding did_request_synchronization
  did_request_synchronization-Inv SyncState.unauthenticated m v = v
  did_request_synchronization-Inv _ m v =
      ground (arith, go_to_keeps w SyncState.update_events_catch_up_phase_one m)

  pub start_background_fetch-Inv :
      (h : ℕ) (m : Machine D) → Inv m → Inv (start_background_fetch w h m)
  unfolding start_background_fetch send tally
  start_background_fetch-Inv h m v = ground (
    arith,
    go_to-Inv w SyncState.background_fetch
        (record m { fetch = record (m.fetch) { handler = some h } }),
  )

  pub start_background_task-Inv :
      (h : ℕ) (m : Machine D) → Inv m → Inv (start_background_task w h m)
  unfolding start_background_task send tally
  start_background_task-Inv h m v = ground (
    arith,
    go_to-Inv w SyncState.background_task
        (record m { task = record (m.task) { handler = some h } }),
  )
