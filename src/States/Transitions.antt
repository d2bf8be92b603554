-- ===== src/States/Transitions.antt =====
-- `goToState:` of ZMSyncStateMachine.m and the `didEnterState` of every state. A `didEnterState`
-- may call `goToState:` again, so it takes that function as an argument, and `go_to_within` bounds
-- how deep these calls nest.
use zmessaging_cocoa.Base.{
  ℕ, zero, suc, ◌<◌, true, false, List, [], ◌∷◌, some, ltb, if◌then◌else◌, is_none, ◌≤◌, ◌≡◌, refl,
  arith,
}
use zmessaging_cocoa.States.World.{SyncState, Transcoder, Command, World}
use zmessaging_cocoa.States.Machine.{
  Machine, maximum_time_in_state, send, is_done_with_login, runs_login_timer, can_go_to_background,
  start_login_timer, leave,
}

module _ {D : Type 0} (w : World D) where
  abbrev pub Go : Type 0
  Go = SyncState → Machine D → Machine D

  abbrev pub start_quick_sync : Go → Machine D → Machine D
  start_quick_sync go m = go SyncState.update_events_catch_up_phase_one m

  abbrev pub start_slow_sync : Go → Machine D → Machine D
  start_slow_sync go m = go SyncState.download_last_update_event_id m

  -- `didStartSlowSync`: every transcoder is told.
  unfoldable pub did_start_slow_sync : List Transcoder → Machine D → Machine D
  did_start_slow_sync [] m = m
  did_start_slow_sync (t ∷ ts) m = did_start_slow_sync ts (send w (Command.set_needs_slow_sync t) m)

  -- `didEnterState` of the unauthenticated state without a login, up to adding the observer.
  unfoldable pub await_login : Machine D → Machine D
  await_login m =
      let reset = send w Command.reset_registration_state m in
      send w Command.add_observer
        (if runs_login_timer w reset.outside then start_login_timer w reset else reset)

  enter_unauthenticated : Go → Machine D → Machine D
  unfolding await_login
  enter_unauthenticated go m =
      if is_done_with_login w m.outside
      then (if w.in_background m.outside then go SyncState.background m else start_quick_sync go m)
      else (let observed = await_login m in
          if w.is_self_user_complete observed.outside
          then observed
          else send w (Command.set_needs_slow_sync Transcoder.self) observed)

  enter_event_processing : Machine D → Machine D
  enter_event_processing m = send w Command.notify_initial_sync_completed (
      send w Command.did_finish_sync (
        send w Command.post_did_enter_event_processing
          (send w Command.apply_patches (send w Command.process_all_events_in_buffer m))))

  -- `didEnterState` of the first catch-up phase, up to its test of the last event.
  unfoldable pub begin_catch_up : Machine D → Machine D
  unfolding send
  begin_catch_up m =
      send w Command.process_stored_invitations
        (send w Command.did_start_sync (record m { error_in_phase_one = false }))

  -- The download is started on both branches; without a last event the slow sync follows.
  enter_catch_up_phase_one : Go → Machine D → Machine D
  enter_catch_up_phase_one go m =
      let invited = begin_catch_up m in
      if w.has_last_update_event_id invited.outside
      then send w Command.start_downloading_missing_notifications invited
      else start_slow_sync go (send w Command.start_downloading_missing_notifications invited)

  enter_pre_background : Go → Machine D → Machine D
  enter_pre_background go m =
      if can_go_to_background w m.outside
      then go SyncState.background m
      else record (send w Command.begin_activity m) { has_activity = true }

  -- `didEnterState` of the background fetch, up to its test of the last event.
  unfoldable pub begin_fetch : Machine D → Machine D
  unfolding send
  begin_fetch m =
      let time =
        if ltb 0 m.fetch.maximum_time then m.fetch.maximum_time else maximum_time_in_state in
      let timed = send w (Command.start_timer m.next_timer time) m in
      record timed {
        next_timer = suc m.next_timer;
        fetch = record (m.fetch) {
          error_in_downloading = false;
          event_id_at_start = w.last_update_event_id timed.outside;
          did_request_assets = false;
          timer = some m.next_timer;
          maximum_time = time;
        };
      }

  enter_background_fetch : Go → Machine D → Machine D
  enter_background_fetch go m =
      let entered = begin_fetch m in
      if is_none entered.fetch.event_id_at_start
      then go SyncState.pre_background entered
      else send w Command.start_downloading_missing_notifications entered

  enter_background_task : Machine D → Machine D
  enter_background_task m =
      let time = if ltb 0 m.task.maximum_time then m.task.maximum_time else maximum_time_in_state in
      record (send w (Command.start_timer m.next_timer time) m) {
        next_timer = suc m.next_timer;
        task = record (m.task) {
          is_requesting_clients = false;
          has_missing_clients = false;
          error_performing_task = false;
          did_finish_task = false;
          timer = some m.next_timer;
          maximum_time = time;
        };
      }

  abbrev pub enter_slow_sync_phase_one : Machine D → Machine D
  enter_slow_sync_phase_one m =
      send w Command.did_start_sync (did_start_slow_sync w.all_transcoders m)

  abbrev pub enter_slow_sync_phase_two : Machine D → Machine D
  enter_slow_sync_phase_two m =
      send w (Command.set_needs_slow_sync Transcoder.call_state)
        (send w (Command.set_needs_slow_sync Transcoder.user) m)

  abbrev pub enter_catch_up_phase_two : Machine D → Machine D
  enter_catch_up_phase_two m =
      send w Command.start_downloading_missing_notifications
        (record m { error_in_phase_two = false })

  abbrev pub enter_download_last_event : Machine D → Machine D
  enter_download_last_event m = send w Command.start_requesting_last_update_event_id m

  abbrev pub enter_background : Machine D → Machine D
  enter_background m =
      send w Command.session_enter_background (record m { did_prepare_for_suspend = false })

  -- `didEnterState` of each state.
  unfoldable pub enter : Go → SyncState → Machine D → Machine D
  unfolding enter_unauthenticated enter_event_processing enter_catch_up_phase_one
      enter_pre_background enter_background_fetch enter_background_task
  enter go SyncState.unauthenticated m = enter_unauthenticated go m
  enter go SyncState.unauthenticated_background m = m
  enter go SyncState.event_processing m = enter_event_processing m
  enter go SyncState.slow_sync_phase_one m = enter_slow_sync_phase_one m
  enter go SyncState.slow_sync_phase_two m = enter_slow_sync_phase_two m
  enter go SyncState.update_events_catch_up_phase_one m = enter_catch_up_phase_one go m
  enter go SyncState.update_events_catch_up_phase_two m = enter_catch_up_phase_two m
  enter go SyncState.download_last_update_event_id m = enter_download_last_event m
  enter go SyncState.background m = enter_background m
  enter go SyncState.pre_background m = enter_pre_background go m
  enter go SyncState.background_fetch m = enter_background_fetch go m
  enter go SyncState.background_task m = enter_background_task m

  -- The state is left, and the machine switched to another.
  unfoldable pub switch_to : SyncState → Machine D → Machine D
  switch_to s m = let left = leave w m.current m in record left { current = s }

  unfoldable pub go_to_within : ℕ → Go
  go_to_within zero s m = m
  go_to_within (suc n) s m = enter (go_to_within n) s (switch_to s m)

  -- How many nested calls of `goToState:` entering a state takes at most.
  abbrev pub depth : SyncState → ℕ
  depth SyncState.unauthenticated = 3
  depth SyncState.background_fetch = 3
  depth SyncState.update_events_catch_up_phase_one = 2
  depth SyncState.pre_background = 2
  depth _ = 1

  pub depth_pos : (s : SyncState) → 0 < depth s
  depth_pos SyncState.unauthenticated = omega arith
  depth_pos _ = omega arith

  pub depth_cap : (s : SyncState) → depth s ≤ 3
  depth_cap SyncState.unauthenticated = omega arith
  depth_cap _ = omega arith

  unfoldable pub go_to : Go
  unfolding go_to_within
  go_to = go_to_within 3

  -- A state's entry calls `goToState:` only for states of smaller depth.
  enter_ext :
      (go go' : Go) (s : SyncState) (m : Machine D)
      → ((t : SyncState) (m' : Machine D) → depth t < depth s → go t m' ≡ go' t m')
      → enter go s m ≡ enter go' s m
  unfolding enter
  enter_ext go go' SyncState.unauthenticated m h =
      ground (arith, h SyncState.background m, h SyncState.update_events_catch_up_phase_one m)
  enter_ext go go' SyncState.background_fetch m h =
      ground (arith, h SyncState.pre_background (begin_fetch m))
  enter_ext go go' SyncState.update_events_catch_up_phase_one m h = ground (
    arith,
    h SyncState.download_last_update_event_id
        (send w Command.start_downloading_missing_notifications (begin_catch_up m)),
  )
  enter_ext go go' SyncState.pre_background m h = ground (arith, h SyncState.background m)
  enter_ext go go' _ m h = refl

  -- Entering a state with more depth than it takes changes nothing.
  go_to_within-enough :
      (n k : ℕ) (s : SyncState) (m : Machine D)
      → depth s ≤ n
      → depth s ≤ k
      → go_to_within n s m ≡ go_to_within k s m
  unfolding go_to_within
  go_to_within-enough zero k s m h j = absurd (ground (arith, depth_pos s))
  go_to_within-enough (suc n) zero s m h j = absurd (ground (arith, depth_pos s))
  go_to_within-enough (suc n) (suc k) s m h j =
      enter_ext (go_to_within n) (go_to_within k) s (switch_to s m)
        λ t m' lt. go_to_within-enough n k t m' (omega arith) (omega arith)

  -- `goToState:` is what the source writes: leave the current state, switch, enter the new one with
  -- the same `goToState:`; its nested calls end.
  pub go_to-unfolds : (s : SyncState) (m : Machine D) → go_to s m ≡ enter go_to s (switch_to s m)
  unfolding go_to go_to_within
  go_to-unfolds s m = enter_ext (go_to_within 2) (go_to_within 3) s (switch_to s m) λ t m' lt.
      go_to_within-enough 2 3 t m' (ground (arith, depth_cap s)) (ground (arith, depth_cap s))
