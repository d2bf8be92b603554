-- ===== src/States/Handlers/Events.antt =====
-- The completion handlers through the events other than a start.
use zmessaging_cocoa.Base.{ℕ, true, false, arith, tally, if◌then◌else◌, if_elim}
use zmessaging_cocoa.States.World.{SyncState, Command, World, Handler, Response}
use zmessaging_cocoa.States.Machine.{
  Machine, send, start_login_timer, cancel_login_timer, mark_fetch_as_complete,
  mark_task_as_complete, runs_login_timer,
}
use zmessaging_cocoa.States.Transitions.{go_to}
use zmessaging_cocoa.States.Events.{
  data_did_change, did_enter_background, did_enter_foreground, did_fail_authentication,
  did_request_synchronization, fetch_timed_out, task_timed_out, drop_fetch_timer, drop_task_timer,
  fetch_timer_did_fire, task_timer_did_fire, did_change_authentication_data, complete,
}
use zmessaging_cocoa.States.Handlers.{
  SameOwed, SameOwed-trans, As, go_to-SameOwed, quick_sync_if_due-SameOwed,
  fetch_out_if_complete-SameOwed, task_out_if_complete-SameOwed,
}
use zmessaging_cocoa.States.Handlers.Requests.{start_login_timer-SameOwed}

module _ (h : ℕ) {D : Type 0} (w : World D) where
  pub data_did_change-SameOwed :
      (s : SyncState) (m : Machine D) → SameOwed h (data_did_change w s m) m
  unfolding data_did_change
  data_did_change-SameOwed SyncState.unauthenticated m = quick_sync_if_due-SameOwed h w m
  data_did_change-SameOwed SyncState.background_fetch m = fetch_out_if_complete-SameOwed h w m
  data_did_change-SameOwed SyncState.background_task m = task_out_if_complete-SameOwed h w m
  data_did_change-SameOwed SyncState.download_last_update_event_id m =
      ground (arith, go_to-SameOwed h w SyncState.slow_sync_phase_one m)
  data_did_change-SameOwed SyncState.slow_sync_phase_one m =
      ground (arith, go_to-SameOwed h w SyncState.slow_sync_phase_two m)
  data_did_change-SameOwed SyncState.slow_sync_phase_two m =
      ground (arith, go_to-SameOwed h w SyncState.event_processing m)
  data_did_change-SameOwed SyncState.update_events_catch_up_phase_one m = ground (
    arith,
    go_to-SameOwed h w SyncState.download_last_update_event_id
        (record m { error_in_phase_one = false }),
    go_to-SameOwed h w SyncState.update_events_catch_up_phase_two m,
  )
  data_did_change-SameOwed SyncState.update_events_catch_up_phase_two m = ground (
    arith,
    go_to-SameOwed h w SyncState.download_last_update_event_id
        (record m { error_in_phase_two = false }),
    go_to-SameOwed h w SyncState.event_processing m,
  )
  data_did_change-SameOwed SyncState.pre_background m =
      ground (arith, go_to-SameOwed h w SyncState.background m)
  data_did_change-SameOwed _ m = ground arith

  pub did_enter_background-SameOwed :
      (s : SyncState) (m : Machine D) → SameOwed h (did_enter_background w s m) m
  unfolding did_enter_background
  did_enter_background-SameOwed SyncState.unauthenticated m =
      go_to-SameOwed h w SyncState.unauthenticated_background m
  did_enter_background-SameOwed _ m = ground (arith, go_to-SameOwed h w SyncState.pre_background m)

  pub did_enter_foreground-SameOwed :
      (s : SyncState) (m : Machine D) → SameOwed h (did_enter_foreground w s m) m
  unfolding did_enter_foreground
  did_enter_foreground-SameOwed SyncState.unauthenticated m = ground (
    arith,
    go_to-SameOwed h w SyncState.update_events_catch_up_phase_one
        (record m { login = record (m.login) { did_launch_in_foreground = true } }),
  )
  did_enter_foreground-SameOwed SyncState.unauthenticated_background m =
      go_to-SameOwed h w SyncState.unauthenticated m
  did_enter_foreground-SameOwed _ m =
      ground (arith, go_to-SameOwed h w SyncState.update_events_catch_up_phase_one m)

  pub did_fail_authentication-SameOwed :
      (s : SyncState) (m : Machine D) → SameOwed h (did_fail_authentication w s m) m
  unfolding did_fail_authentication
  did_fail_authentication-SameOwed SyncState.unauthenticated m = ground arith
  did_fail_authentication-SameOwed _ m =
      ground (arith, go_to-SameOwed h w SyncState.unauthenticated m)

  pub did_request_synchronization-SameOwed :
      (s : SyncState) (m : Machine D) → SameOwed h (did_request_synchronization w s m) m
  unfolding did_request_synchronization
  did_request_synchronization-SameOwed SyncState.unauthenticated m = ground arith
  did_request_synchronization-SameOwed _ m =
      ground (arith, go_to-SameOwed h w SyncState.update_events_catch_up_phase_one m)

  mark_fetch_as_complete-SameOwed : (m : Machine D) → SameOwed h (mark_fetch_as_complete w m) m
  unfolding mark_fetch_as_complete send tally
  mark_fetch_as_complete-SameOwed m = ground arith

  mark_task_as_complete-SameOwed : (m : Machine D) → SameOwed h (mark_task_as_complete w m) m
  unfolding mark_task_as_complete send tally
  mark_task_as_complete-SameOwed m = ground arith

  fetch_timed_out-SameOwed : (s : SyncState) (m : Machine D) → SameOwed h (fetch_timed_out w s m) m
  unfolding fetch_timed_out
  fetch_timed_out-SameOwed SyncState.background_fetch m = ground (
    arith,
    go_to-SameOwed h w SyncState.pre_background m,
    mark_fetch_as_complete-SameOwed (go_to w SyncState.pre_background m),
  )
  fetch_timed_out-SameOwed _ m = ground arith

  task_timed_out-SameOwed : (s : SyncState) (m : Machine D) → SameOwed h (task_timed_out w s m) m
  unfolding task_timed_out
  task_timed_out-SameOwed SyncState.background_task m =
      ground (arith, left, mark_task_as_complete-SameOwed (go_to w SyncState.pre_background failed))
    where
      failed : Machine D
      failed = record m { task = record (m.task) { error_performing_task = true } }

      left : SameOwed h (go_to w SyncState.pre_background failed) failed
      left = go_to-SameOwed h w SyncState.pre_background failed
  task_timed_out-SameOwed _ m = ground arith

  drop_fetch_timer-SameOwed : (m : Machine D) → SameOwed h (drop_fetch_timer w m) m
  unfolding drop_fetch_timer send tally
  drop_fetch_timer-SameOwed m = ground arith

  drop_task_timer-SameOwed : (m : Machine D) → SameOwed h (drop_task_timer w m) m
  unfolding drop_task_timer send tally
  drop_task_timer-SameOwed m = ground arith

  pub fetch_timer_did_fire-SameOwed :
      (t : ℕ) (m : Machine D) → SameOwed h (fetch_timer_did_fire w t m) m
  unfolding fetch_timer_did_fire
  fetch_timer_did_fire-SameOwed t m = ground (
    arith,
    drop_fetch_timer-SameOwed m,
    fetch_timed_out-SameOwed (drop_fetch_timer w m).current (drop_fetch_timer w m),
  )

  pub task_timer_did_fire-SameOwed :
      (t : ℕ) (m : Machine D) → SameOwed h (task_timer_did_fire w t m) m
  unfolding task_timer_did_fire
  task_timer_did_fire-SameOwed t m = ground (
    arith,
    drop_task_timer-SameOwed m,
    task_timed_out-SameOwed (drop_task_timer w m).current (drop_task_timer w m),
  )

  cancel_login_timer-SameOwed : (m : Machine D) → SameOwed h (cancel_login_timer w m) m
  unfolding cancel_login_timer send tally
  cancel_login_timer-SameOwed m = ground arith

  reset_registration-SameOwed :
      (m : Machine D) → SameOwed h (send w Command.reset_registration_state m) m
  unfolding send tally
  reset_registration-SameOwed m = ground arith

  pub did_change_authentication_data-SameOwed :
      (m : Machine D) → SameOwed h (did_change_authentication_data w m) m
  unfolding did_change_authentication_data
  did_change_authentication_data-SameOwed m =
      SameOwed-trans h _ _ _ (quick_sync_if_due-SameOwed h w _) (
        if_elim (As h w m) _ _ _ (λ _. SameOwed-trans h _ _ _ (reset_registration-SameOwed _) timed)
          (λ _. timed))
    where
      cancelled : SameOwed h (cancel_login_timer w m) m
      cancelled = cancel_login_timer-SameOwed m

      timed :
          SameOwed h
            (if runs_login_timer w (cancel_login_timer w m).outside
              then start_login_timer w (cancel_login_timer w m)
              else cancel_login_timer w m)
            m
      timed =
          if_elim (As h w m) _ _ _
            (λ _. SameOwed-trans h _ _ _ (start_login_timer-SameOwed h w _) cancelled)
            (λ _. cancelled)

  pub complete-SameOwed :
      (b : Handler) (r : Response) (m : Machine D) → SameOwed h (complete w b r m) m
  unfolding complete send tally
  complete-SameOwed Handler.save_missing_events r m = ground arith
  complete-SameOwed _ r m = ground arith
