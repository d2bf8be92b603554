-- ===== src/States/Diagram/Steps.antt =====
-- The diagram and the events of every kind.
use zmessaging_cocoa.Base.{subst, ℕ, true, false, some, ◌≡◌, refl, ◌⊎◌, inl, arith, same?, if_elim}
use zmessaging_cocoa.States.World.{SyncState, World, Handler, Response}
use zmessaging_cocoa.States.Machine.{
  Machine, send, start_login_timer, cancel_login_timer, mark_fetch_as_complete,
  mark_task_as_complete,
}
use zmessaging_cocoa.States.Transitions.{go_to}
use zmessaging_cocoa.States.Requests.{quick_sync_if_due, next_request}
use zmessaging_cocoa.States.Landing.{go_to-Lands}
use zmessaging_cocoa.States.Events.{
  Event, fetch_timed_out, task_timed_out, drop_fetch_timer, drop_task_timer, fetch_timer_did_fire,
  task_timer_did_fire, authentication_data_changed, did_change_authentication_data, renew_login,
  complete, step,
}
use zmessaging_cocoa.States.Loop.{Settles, quick_sync_if_due-current, next_request-Settles}
use zmessaging_cocoa.States.Diagram.{may_move, Moves}
use zmessaging_cocoa.States.Diagram.Sides.{
  data_did_change-Advances, did_enter_background-Moves, did_enter_foreground-Moves,
  did_fail_authentication-Moves, did_request_synchronization-Moves, start_background_fetch-Moves,
  start_background_task-Moves,
}

module _ {D : Type 0} (w : World D) where
  drop_fetch_timer-current : (m : Machine D) → (drop_fetch_timer w m).current ≡ m.current
  unfolding drop_fetch_timer send
  drop_fetch_timer-current m = ground arith

  drop_task_timer-current : (m : Machine D) → (drop_task_timer w m).current ≡ m.current
  unfolding drop_task_timer send
  drop_task_timer-current m = ground arith

  mark_fetch_as_complete-current :
      (m : Machine D) → (mark_fetch_as_complete w m).current ≡ m.current
  unfolding mark_fetch_as_complete send
  mark_fetch_as_complete-current m = ground arith

  mark_task_as_complete-current : (m : Machine D) → (mark_task_as_complete w m).current ≡ m.current
  unfolding mark_task_as_complete send
  mark_task_as_complete-current m = ground arith

  fetch_timed_out-Moves :
      (s : SyncState) (m : Machine D) → m.current ≡ s → Moves s (fetch_timed_out w s m).current
  unfolding fetch_timed_out
  fetch_timed_out-Moves SyncState.background_fetch m e = ground (
    arith,
    go_to-Lands w SyncState.pre_background m,
    mark_fetch_as_complete-current (go_to w SyncState.pre_background m),
  )
  fetch_timed_out-Moves _ m e = inl e

  task_timed_out-Moves :
      (s : SyncState) (m : Machine D) → m.current ≡ s → Moves s (task_timed_out w s m).current
  unfolding task_timed_out
  task_timed_out-Moves SyncState.background_task m e =
      let failed = record m { task = record (m.task) { error_performing_task = true } } in
      ground (
        arith,
        go_to-Lands w SyncState.pre_background failed,
        mark_task_as_complete-current (go_to w SyncState.pre_background failed),
      )
  task_timed_out-Moves _ m e = inl e

  fetch_timer_did_fire-Moves :
      (t : ℕ) (m : Machine D) → Moves m.current (fetch_timer_did_fire w t m).current
  unfolding fetch_timer_did_fire
  fetch_timer_did_fire-Moves t m =
      let m' = drop_fetch_timer w m in
      if_elim (λ n. Moves m.current n.current) (same? (some t) m.fetch.timer)
        (fetch_timed_out w m'.current m') m
        (λ _.
          subst (λ s. Moves s (fetch_timed_out w m'.current m').current)
            (drop_fetch_timer-current m) (fetch_timed_out-Moves m'.current m' refl))
        (λ _. inl refl)

  task_timer_did_fire-Moves :
      (t : ℕ) (m : Machine D) → Moves m.current (task_timer_did_fire w t m).current
  unfolding task_timer_did_fire
  task_timer_did_fire-Moves t m =
      let m' = drop_task_timer w m in
      if_elim (λ n. Moves m.current n.current) (same? (some t) m.task.timer)
        (task_timed_out w m'.current m') m
        (λ _.
          subst (λ s. Moves s (task_timed_out w m'.current m').current) (drop_task_timer-current m)
            (task_timed_out-Moves m'.current m' refl))
        (λ _. inl refl)

  cancel_login_timer-current : (m : Machine D) → (cancel_login_timer w m).current ≡ m.current
  unfolding cancel_login_timer send
  cancel_login_timer-current m = ground arith

  start_login_timer-current : (m : Machine D) → (start_login_timer w m).current ≡ m.current
  unfolding start_login_timer send
  start_login_timer-current m = ground arith

  renew_login-current : (m : Machine D) → (renew_login w m).current ≡ m.current
  unfolding renew_login send
  renew_login-current m =
      ground
        (arith, cancel_login_timer-current m, start_login_timer-current (cancel_login_timer w m))

  authentication_data-Moves :
      (m : Machine D)
      → m.current ≡ SyncState.unauthenticated
      → Moves SyncState.unauthenticated (quick_sync_if_due w (renew_login w m)).current
  authentication_data-Moves m e =
      ground (arith, renew_login-current m, quick_sync_if_due-current w (renew_login w m))

  complete-current :
      (h : Handler) (r : Response) (m : Machine D) → (complete w h r m).current ≡ m.current
  unfolding complete send
  complete-current Handler.save_missing_events r m = ground arith
  complete-current _ r m = ground arith

  next_request-Moves : (s c : SyncState) → Settles w s c → Moves s c
  next_request-Moves SyncState.unauthenticated c p = ground arith
  next_request-Moves _ c p = ground arith

  authentication_data_changed-Moves :
      (s : SyncState) (m : Machine D)
      → m.current ≡ s
      → Moves s (authentication_data_changed w s m).current
  unfolding authentication_data_changed did_change_authentication_data
  authentication_data_changed-Moves SyncState.unauthenticated m e = authentication_data-Moves m e
  authentication_data_changed-Moves _ m e = inl e

  -- One event leaves the machine in its state, or moves it as the diagram says: `dataDidChange`
  -- along the chains of syncs, and any other event to a restart of the sync, to the background or
  -- to the login, a fetch or a task only from the background state.
  pub step_moves :
      (m : Machine D) (e : Event D)
      → ((step w m e).current ≡ m.current) ⊎ (may_move e m.current (step w m e).current ≡ true)
  unfolding step send
  step_moves m (Event.world_changes d) = inl refl
  step_moves m Event.data_changes = data_did_change-Advances w m.current m refl
  step_moves m Event.enters_background = did_enter_background-Moves w m.current m refl
  step_moves m Event.enters_foreground = did_enter_foreground-Moves w m.current m refl
  step_moves m Event.authentication_fails = did_fail_authentication-Moves w m.current m refl
  step_moves m Event.authentication_data_changes =
      authentication_data_changed-Moves m.current m refl
  step_moves m Event.stream_interrupted =
      did_request_synchronization-Moves w m.current (record m { is_stream_active = false }) refl
  step_moves m Event.stream_established = inl refl
  step_moves m (Event.starts_fetch h) = start_background_fetch-Moves w h m
  step_moves m (Event.starts_task h) = start_background_task-Moves w h m
  step_moves m Event.asks_request =
      next_request-Moves m.current (next_request w m).1.current (next_request-Settles w m)
  step_moves m (Event.responds h r) = inl (complete-current h r m)
  step_moves m (Event.fetch_timer_fires t) = fetch_timer_did_fire-Moves t m
  step_moves m (Event.task_timer_fires t) = task_timer_did_fire-Moves t m
  step_moves m (Event.login_timer_fires t) = inl refl
