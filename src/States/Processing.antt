-- ===== src/States/Processing.antt =====
-- The ways into event processing.
use zmessaging_cocoa.Base.{true, false, ◌≡◌, refl, ◌⊎◌, inl, arith}
use zmessaging_cocoa.States.World.{SyncState, World}
use zmessaging_cocoa.States.Machine.{Machine}
use zmessaging_cocoa.States.Landing.{go_to-Lands}
use zmessaging_cocoa.States.Events.{Event, data_did_change, step}
use zmessaging_cocoa.States.Diagram.{Moves}
use zmessaging_cocoa.States.Diagram.Sides.{data_did_change-Advances}
use zmessaging_cocoa.States.Diagram.Steps.{step_moves}

-- What `dataDidChange` finds when it goes on to event processing.
abbrev pub Synced : {D : Type 0} → World D → SyncState → Machine D → Type 0
Synced w s m =
    (s ≡ SyncState.event_processing)
    ⊎ ((s ≡ SyncState.slow_sync_phase_two) × (w.users_done m.outside ≡ true))
    ⊎ ((s ≡ SyncState.update_events_catch_up_phase_two)
        × (m.error_in_phase_two ≡ false)
        × (w.is_downloading_missing_notifications m.outside ≡ false))

module _ {D : Type 0} (w : World D) where
  entered_by_data :
      (s : SyncState) (m : Machine D)
      → m.current ≡ s
      → (data_did_change w s m).current ≡ SyncState.event_processing
      → Synced w s m
  unfolding data_did_change
  entered_by_data SyncState.slow_sync_phase_two m e p = ground arith
  entered_by_data SyncState.update_events_catch_up_phase_two m e p = ground (
    arith,
    go_to-Lands w SyncState.download_last_update_event_id (record m { error_in_phase_two = false }),
  )
  entered_by_data SyncState.event_processing m e p = inl refl
  entered_by_data SyncState.update_events_catch_up_phase_one m e p =
      ground (arith, data_did_change-Advances w SyncState.update_events_catch_up_phase_one m e)
  entered_by_data SyncState.unauthenticated m e p =
      ground (arith, data_did_change-Advances w SyncState.unauthenticated m e)
  entered_by_data SyncState.background_fetch m e p =
      ground (arith, data_did_change-Advances w SyncState.background_fetch m e)
  entered_by_data SyncState.background_task m e p =
      ground (arith, data_did_change-Advances w SyncState.background_task m e)
  entered_by_data SyncState.pre_background m e p =
      ground (arith, data_did_change-Advances w SyncState.pre_background m e)
  entered_by_data SyncState.download_last_update_event_id m e p =
      ground (arith, data_did_change-Advances w SyncState.download_last_update_event_id m e)
  entered_by_data SyncState.slow_sync_phase_one m e p =
      ground (arith, data_did_change-Advances w SyncState.slow_sync_phase_one m e)
  entered_by_data _ m e p = ground arith

  jump_not_processing :
      (s c : SyncState)
      → Moves s c
      → c ≡ SyncState.event_processing
      → s ≡ SyncState.event_processing
  jump_not_processing SyncState.event_processing c p e = refl
  jump_not_processing _ c p e = ground arith

  entered_by_jump :
      (m : Machine D) (c : SyncState)
      → Moves m.current c
      → c ≡ SyncState.event_processing
      → Synced w m.current m
  entered_by_jump m c p e = inl (jump_not_processing m.current c p e)

  -- If the machine is in event processing after an event, it was so before, or the slow sync had
  -- fetched all users, or the second catch-up phase had downloaded all missing notifications
  -- without an error.
  pub event_processing_entered :
      (m : Machine D) (e : Event D)
      → (step w m e).current ≡ SyncState.event_processing
      → Synced w m.current m
  event_processing_entered m Event.data_changes p =
      entered_by_data m.current m refl (unfold step in p)
  event_processing_entered m e p = entered_by_jump m (step w m e).current (step_moves w m e) p
