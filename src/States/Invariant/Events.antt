-- ===== src/States/Invariant/Events.antt =====
-- The invariant through every event and any run.
use zmessaging_cocoa.Base.{
  ℕ, true, false, List, [], ◌∷◌, some, ◌≡◌, refl, ◌∙◌, arith, tally, if◌then◌else◌, same?, if_elim,
}
use zmessaging_cocoa.States.World.{SyncState, Command, World, Handler, Response}
use zmessaging_cocoa.States.Machine.{
  Machine, send, start_login_timer, cancel_login_timer, mark_fetch_as_complete,
  mark_task_as_complete, runs_login_timer,
}
use zmessaging_cocoa.States.Transitions.{go_to}
use zmessaging_cocoa.States.Landing.{go_to-Lands}
use zmessaging_cocoa.States.Invariant.{
  Inv, Ready, enter-Inv, go_to-Inv, is_background_fetch, is_background_task,
}
use zmessaging_cocoa.States.Events.{
  Event, fetch_timed_out, task_timed_out, drop_fetch_timer, drop_task_timer, fetch_timer_did_fire,
  task_timer_did_fire, did_change_authentication_data, complete, step, run, init, blank,
}
use zmessaging_cocoa.States.Invariant.Requests.{
  quick_sync_if_due-Inv, start_login_timer-Inv, next_request-Inv,
}
use zmessaging_cocoa.States.Invariant.Sides.{
  data_did_change-Inv, did_enter_background-Inv, did_enter_foreground-Inv,
  did_fail_authentication-Inv, did_request_synchronization-Inv, start_background_fetch-Inv,
  start_background_task-Inv,
}

module _ {D : Type 0} (w : World D) where
  mark_fetch_as_complete-Inv :
      (m : Machine D)
      → is_background_fetch m.current ≡ false
      → Inv m
      → Inv (mark_fetch_as_complete w m)
  unfolding mark_fetch_as_complete
  mark_fetch_as_complete-Inv m e v = ground arith

  mark_task_as_complete-Inv :
      (m : Machine D)
      → is_background_task m.current ≡ false
      → Inv m
      → Inv (mark_task_as_complete w m)
  unfolding mark_task_as_complete
  mark_task_as_complete-Inv m e v = ground arith

  -- The background fetch after its timer was cancelled.
  fetch_timed_out-Inv :
      (s : SyncState) (m : Machine D)
      → m.current ≡ s
      → Ready SyncState.pre_background m
      → (is_background_fetch s ≡ false → Inv m)
      → Inv (fetch_timed_out w s m)
  unfolding fetch_timed_out
  fetch_timed_out-Inv SyncState.background_fetch m e r keep =
      mark_fetch_as_complete-Inv _ (ground (arith, go_to-Lands w SyncState.pre_background m))
        (go_to-Inv w SyncState.pre_background m r)
  fetch_timed_out-Inv _ m e r keep = keep refl

  task_failed : Machine D → Machine D
  task_failed m = record m { task = record (m.task) { error_performing_task = true } }

  task_failed-Ready :
      (m : Machine D)
      → Ready SyncState.pre_background m
      → Ready SyncState.pre_background (task_failed m)
  unfolding task_failed
  task_failed-Ready m r = ground arith

  task_timed_out-Inv :
      (s : SyncState) (m : Machine D)
      → m.current ≡ s
      → Ready SyncState.pre_background m
      → (is_background_task s ≡ false → Inv m)
      → Inv (task_timed_out w s m)
  unfolding task_timed_out task_failed
  task_timed_out-Inv SyncState.background_task m e r keep =
      mark_task_as_complete-Inv _
        (ground (arith, go_to-Lands w SyncState.pre_background (task_failed m)))
        (go_to-Inv w SyncState.pre_background (task_failed m) (task_failed-Ready m r))
  task_timed_out-Inv _ m e r keep = keep refl

  drop_fetch_timer-Ready :
      (m : Machine D) → Inv m → Ready SyncState.pre_background (drop_fetch_timer w m)
  unfolding drop_fetch_timer send tally
  drop_fetch_timer-Ready m v = ground arith

  drop_fetch_timer-Inv :
      (m : Machine D)
      → Inv m
      → is_background_fetch (drop_fetch_timer w m).current ≡ false
      → Inv (drop_fetch_timer w m)
  unfolding drop_fetch_timer send tally
  drop_fetch_timer-Inv m v = ground arith

  drop_task_timer-Ready :
      (m : Machine D) → Inv m → Ready SyncState.pre_background (drop_task_timer w m)
  unfolding drop_task_timer send tally
  drop_task_timer-Ready m v = ground arith

  drop_task_timer-Inv :
      (m : Machine D)
      → Inv m
      → is_background_task (drop_task_timer w m).current ≡ false
      → Inv (drop_task_timer w m)
  unfolding drop_task_timer send tally
  drop_task_timer-Inv m v = ground arith

  fetch_timer_did_fire-Inv : (t : ℕ) (m : Machine D) → Inv m → Inv (fetch_timer_did_fire w t m)
  unfolding fetch_timer_did_fire
  fetch_timer_did_fire-Inv t m v =
      let m' = drop_fetch_timer w m in
      if_elim Inv (same? (some t) m.fetch.timer) (fetch_timed_out w m'.current m') m
        (λ _.
          fetch_timed_out-Inv m'.current m' refl (drop_fetch_timer-Ready m v)
            (drop_fetch_timer-Inv m v))
        (λ _. v)

  task_timer_did_fire-Inv : (t : ℕ) (m : Machine D) → Inv m → Inv (task_timer_did_fire w t m)
  unfolding task_timer_did_fire
  task_timer_did_fire-Inv t m v =
      let m' = drop_task_timer w m in
      if_elim Inv (same? (some t) m.task.timer) (task_timed_out w m'.current m') m
        (λ _.
          task_timed_out-Inv m'.current m' refl (drop_task_timer-Ready m v)
            (drop_task_timer-Inv m v))
        (λ _. v)

  reset_registration-Inv : (m : Machine D) → Inv m → Inv (send w Command.reset_registration_state m)
  unfolding send tally
  reset_registration-Inv m v = ground arith

  timed_out_login-Inv :
      (c : ℕ) (m : Machine D) → Inv m → Inv (send w (Command.did_timeout_login c) m)
  unfolding send tally
  timed_out_login-Inv c m v = ground arith

  cancel_login_timer-Inv : (m : Machine D) → Inv m → Inv (cancel_login_timer w m)
  unfolding cancel_login_timer send tally
  cancel_login_timer-Inv m v = ground arith

  cancel_login_timer-current : (m : Machine D) → (cancel_login_timer w m).current ≡ m.current
  unfolding cancel_login_timer send
  cancel_login_timer-current m = ground arith

  did_change_authentication_data-Inv :
      (m : Machine D)
      → m.current ≡ SyncState.unauthenticated
      → Inv m
      → Inv (did_change_authentication_data w m)
  unfolding did_change_authentication_data
  did_change_authentication_data-Inv m e v =
      quick_sync_if_due-Inv w _
        (if_elim Inv _ _ _ (λ _. reset_registration-Inv _ timed) (λ _. timed))
    where
      cancelled : Inv (cancel_login_timer w m)
      cancelled = cancel_login_timer-Inv m v

      timed : Inv (
          if runs_login_timer w (cancel_login_timer w m).outside
          then start_login_timer w (cancel_login_timer w m)
          else cancel_login_timer w m)
      timed =
          if_elim Inv _ _ _
            (λ _. start_login_timer-Inv w _ (cancel_login_timer-current m ∙ e) cancelled)
            (λ _. cancelled)

  complete-Inv : (h : Handler) (r : Response) (m : Machine D) → Inv m → Inv (complete w h r m)
  unfolding complete send tally
  complete-Inv Handler.save_missing_events r m v = ground arith
  complete-Inv _ r m v = ground arith

  -- Whatever the event, the invariant is kept.
  pub step-Inv : (m : Machine D) (e : Event D) → Inv m → Inv (step w m e)
  unfolding step
  step-Inv m (Event.world_changes d) v = ground arith
  step-Inv m Event.data_changes v = data_did_change-Inv w m.current m v
  step-Inv m Event.enters_background v = did_enter_background-Inv w m.current m v
  step-Inv m Event.enters_foreground v = did_enter_foreground-Inv w m.current m v
  step-Inv m Event.authentication_fails v = did_fail_authentication-Inv w m.current m v
  step-Inv m Event.authentication_data_changes v =
      ground (arith, did_change_authentication_data-Inv m)
  step-Inv m Event.stream_interrupted v =
      did_request_synchronization-Inv w m.current (record m { is_stream_active = false })
        (ground arith)
  step-Inv m Event.stream_established v = ground arith
  step-Inv m (Event.starts_fetch h) v = start_background_fetch-Inv w h m v
  step-Inv m (Event.starts_task h) v = start_background_task-Inv w h m v
  step-Inv m Event.asks_request v = next_request-Inv w m v
  step-Inv m (Event.responds h r) v = complete-Inv h r m v
  step-Inv m (Event.fetch_timer_fires t) v = fetch_timer_did_fire-Inv t m v
  step-Inv m (Event.task_timer_fires t) v = task_timer_did_fire-Inv t m v
  step-Inv m (Event.login_timer_fires t) v = timed_out_login-Inv t.credentials m v

  run-Inv : (m : Machine D) (es : List (Event D)) → Inv m → Inv (run w m es)
  unfolding run
  run-Inv m [] v = v
  run-Inv m (e ∷ es) v = run-Inv (step w m e) es (step-Inv m e v)

  pub init-Inv : (d : D) → Inv (init w d)
  unfolding init tally
  init-Inv d =
      enter-Inv w (go_to w) SyncState.unauthenticated (blank w d) (λ t m _. go_to-Inv w t m)
        (ground arith)

  -- After any events since the session began: the timer and the completion handler of the background
  -- fetch are set exactly in that state, those of the background task exactly in that one, the login
  -- timer at most in the unauthenticated state, and the background activity runs exactly in the
  -- pre-background state; and the session was sent to the background as often as to the foreground,
  -- once more in the background state.
  pub run-init-Inv : (d : D) (es : List (Event D)) → Inv (run w (init w d) es)
  run-init-Inv d es = run-Inv (init w d) es (init-Inv d)
