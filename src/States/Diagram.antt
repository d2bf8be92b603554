-- ===== src/States/Diagram.antt =====
-- The transition diagram of the machine.
pub mod Sides
pub mod Steps
use zmessaging_cocoa.Base.{Bool, true, false, ◌≡◌, ◌⊎◌}
use zmessaging_cocoa.States.World.{SyncState}
use zmessaging_cocoa.States.Events.{Event}
use zmessaging_cocoa.States.Landing.{is_download, lands_catch_up, lands_pre_background}

-- Where losing the login, or a sync that is asked for, takes a state other than the login ones.
abbrev may_restart : SyncState → Bool
may_restart SyncState.unauthenticated = true
may_restart SyncState.background = true
may_restart c = lands_catch_up c

abbrev may_restart_or_background : SyncState → Bool
may_restart_or_background SyncState.pre_background = true
may_restart_or_background c = may_restart c

-- Where `dataDidChange` takes each state: along the two chains of syncs, or out of the background
-- fetch, the background task and the wait for the background.
abbrev pub may_advance : SyncState → SyncState → Bool
may_advance SyncState.unauthenticated c = lands_catch_up c
may_advance SyncState.download_last_update_event_id SyncState.slow_sync_phase_one = true
may_advance SyncState.slow_sync_phase_one SyncState.slow_sync_phase_two = true
may_advance SyncState.slow_sync_phase_two SyncState.event_processing = true
may_advance SyncState.update_events_catch_up_phase_one SyncState.update_events_catch_up_phase_two =
    true
may_advance SyncState.update_events_catch_up_phase_one c = is_download c
may_advance SyncState.update_events_catch_up_phase_two SyncState.event_processing = true
may_advance SyncState.update_events_catch_up_phase_two c = is_download c
may_advance SyncState.pre_background SyncState.background = true
may_advance SyncState.background_fetch c = lands_pre_background c
may_advance SyncState.background_task c = lands_pre_background c
may_advance _ _ = false

-- Where any other event takes each state; none of them finishes a sync.
abbrev pub may_jump : SyncState → SyncState → Bool
may_jump SyncState.unauthenticated SyncState.unauthenticated_background = true
may_jump SyncState.unauthenticated c = lands_catch_up c
may_jump SyncState.unauthenticated_background c = may_restart c
may_jump SyncState.background SyncState.background_fetch = true
may_jump SyncState.background SyncState.background_task = true
may_jump s c = may_restart_or_background c

abbrev pub may_move : {D : Type 0} → Event D → SyncState → SyncState → Bool
may_move Event.data_changes = may_advance
may_move _ = may_jump

-- Nothing happened, or a move of the diagram.
abbrev pub Advances : SyncState → SyncState → Type 0
Advances s c = (c ≡ s) ⊎ (may_advance s c ≡ true)

abbrev pub Moves : SyncState → SyncState → Type 0
Moves s c = (c ≡ s) ⊎ (may_jump s c ≡ true)
