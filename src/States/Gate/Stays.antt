-- ===== src/States/Gate/Stays.antt =====
-- The login states through every event that does not complete the login.
use zmessaging_cocoa.Base.{ℕ, true, false, List, [], ◌∷◌, some, ◌≡◌, refl, arith, same?, if_elim}
use zmessaging_cocoa.States.World.{
  FetchResult, TaskResult, SyncState, Command, World, Handler, Response,
}
use zmessaging_cocoa.States.Machine.{
  Machine, send, start_login_timer, cancel_login_timer, is_done_with_login, runs_login_timer,
}
use zmessaging_cocoa.States.Events.{
  Event, data_did_change, did_enter_background, did_enter_foreground, did_fail_authentication,
  did_request_synchronization, start_background_fetch, start_background_task, fetch_timed_out,
  task_timed_out, drop_fetch_timer, drop_task_timer, fetch_timer_did_fire, task_timer_did_fire,
  renew_login_timer, authentication_data_changed, did_change_authentication_data, renew_login,
  complete, step, run, init, blank, is_register_phase,
}
use zmessaging_cocoa.States.Gate.{
  IsPassive, KeepsOut, AllKeepOut, is_login_state, Out, send-Out, cancel_login_timer-Out,
  start_login_timer-Out, enter_unauthenticated-Out, foreground-Out, background-Out,
}
use zmessaging_cocoa.States.Gate.Requests.{quick_sync_if_due-Out, next_request-Out}

module _ {D : Type 0} (w : World D) (passive : IsPassive w) where
  renew_login_timer-Out : (m : Machine D) → Out w passive m → Out w passive (renew_login_timer w m)
  unfolding renew_login_timer
  renew_login_timer-Out m o =
      let c = cancel_login_timer w m in
      let o' = cancel_login_timer-Out w passive m o in
      if_elim (Out w passive) (runs_login_timer w c.outside) (start_login_timer w c) c
        (λ _. start_login_timer-Out w passive c o') (λ _. o')

  renew_login-Out : (m : Machine D) → Out w passive m → Out w passive (renew_login w m)
  unfolding renew_login
  renew_login-Out m o =
      let timed = renew_login_timer w m in
      let o' = renew_login_timer-Out m o in
      if_elim (Out w passive) (is_register_phase (w.auth_phase timed.outside))
        (send w Command.reset_registration_state timed) timed
        (λ _. send-Out w passive Command.reset_registration_state timed o') (λ _. o')

  not_login :
      (m : Machine D) (s : SyncState)
      → m.current ≡ s
      → is_login_state s ≡ false
      → Out w passive m
      → ⊥
  not_login m s e f o = ground arith

  world_keeps-Out :
      (m : Machine D) (d : D)
      → is_done_with_login w d ≡ false
      → Out w passive m
      → Out w passive (record m { outside = d })
  world_keeps-Out m d out o = record { out = out; here = o.here }

  complete-Out :
      (h : Handler) (r : Response) (m : Machine D)
      → Out w passive m
      → Out w passive (complete w h r m)
  unfolding complete send
  complete-Out Handler.save_missing_events r m o =
      ground (arith, passive.reacts Command.save_or_rollback m.outside o.out)
  complete-Out _ r m o = ground (arith, passive.reacts Command.save_or_rollback m.outside o.out)

  data_did_change-Out :
      (s : SyncState) (m : Machine D)
      → m.current ≡ s
      → Out w passive m
      → Out w passive (data_did_change w s m)
  unfolding data_did_change
  data_did_change-Out SyncState.unauthenticated m e o = quick_sync_if_due-Out w passive m o
  data_did_change-Out SyncState.unauthenticated_background m e o = o
  data_did_change-Out s m e o = absurd (not_login m s e refl o)

  did_enter_background-Out :
      (s : SyncState) (m : Machine D)
      → m.current ≡ s
      → Out w passive m
      → Out w passive (did_enter_background w s m)
  unfolding did_enter_background
  did_enter_background-Out SyncState.unauthenticated m e o = background-Out w passive m o e
  did_enter_background-Out SyncState.unauthenticated_background m e o = o
  did_enter_background-Out s m e o = absurd (not_login m s e refl o)

  did_enter_foreground-Out :
      (s : SyncState) (m : Machine D)
      → m.current ≡ s
      → Out w passive m
      → Out w passive (did_enter_foreground w s m)
  unfolding did_enter_foreground
  did_enter_foreground-Out SyncState.unauthenticated m e o = ground arith
  did_enter_foreground-Out SyncState.unauthenticated_background m e o =
      foreground-Out w passive m o e
  did_enter_foreground-Out s m e o = absurd (not_login m s e refl o)

  did_fail_authentication-Out :
      (s : SyncState) (m : Machine D)
      → m.current ≡ s
      → Out w passive m
      → Out w passive (did_fail_authentication w s m)
  unfolding did_fail_authentication
  did_fail_authentication-Out SyncState.unauthenticated m e o = o
  did_fail_authentication-Out SyncState.unauthenticated_background m e o = o
  did_fail_authentication-Out s m e o = absurd (not_login m s e refl o)

  did_request_synchronization-Out :
      (s : SyncState) (m : Machine D)
      → m.current ≡ s
      → Out w passive m
      → Out w passive (did_request_synchronization w s m)
  unfolding did_request_synchronization
  did_request_synchronization-Out SyncState.unauthenticated m e o = o
  did_request_synchronization-Out SyncState.unauthenticated_background m e o = o
  did_request_synchronization-Out s m e o = absurd (not_login m s e refl o)

  authentication_data_changed-Out :
      (s : SyncState) (m : Machine D)
      → m.current ≡ s
      → Out w passive m
      → Out w passive (authentication_data_changed w s m)
  unfolding authentication_data_changed did_change_authentication_data
  authentication_data_changed-Out SyncState.unauthenticated m e o =
      quick_sync_if_due-Out w passive (renew_login w m) (renew_login-Out m o)
  authentication_data_changed-Out _ m e o = o

  start_background_fetch-Out :
      (h : ℕ) (m : Machine D) → Out w passive m → Out w passive (start_background_fetch w h m)
  unfolding start_background_fetch
  start_background_fetch-Out h m o =
      ground (arith, send-Out w passive (Command.complete_fetch h FetchResult.no_data) m o)

  start_background_task-Out :
      (h : ℕ) (m : Machine D) → Out w passive m → Out w passive (start_background_task w h m)
  unfolding start_background_task
  start_background_task-Out h m o =
      ground (arith, send-Out w passive (Command.complete_task h TaskResult.unavailable) m o)

  drop_fetch_timer-Out : (m : Machine D) → Out w passive m → Out w passive (drop_fetch_timer w m)
  unfolding drop_fetch_timer send
  drop_fetch_timer-Out m o = grind (arith, passive.reacts)

  drop_task_timer-Out : (m : Machine D) → Out w passive m → Out w passive (drop_task_timer w m)
  unfolding drop_task_timer send
  drop_task_timer-Out m o = grind (arith, passive.reacts)

  fetch_timed_out-Out :
      (s : SyncState) (m : Machine D)
      → m.current ≡ s
      → Out w passive m
      → Out w passive (fetch_timed_out w s m)
  unfolding fetch_timed_out
  fetch_timed_out-Out SyncState.background_fetch m e o =
      absurd (not_login m SyncState.background_fetch e refl o)
  fetch_timed_out-Out _ m e o = o

  task_timed_out-Out :
      (s : SyncState) (m : Machine D)
      → m.current ≡ s
      → Out w passive m
      → Out w passive (task_timed_out w s m)
  unfolding task_timed_out
  task_timed_out-Out SyncState.background_task m e o =
      absurd (not_login m SyncState.background_task e refl o)
  task_timed_out-Out _ m e o = o

  fetch_timer_did_fire-Out :
      (t : ℕ) (m : Machine D) → Out w passive m → Out w passive (fetch_timer_did_fire w t m)
  unfolding fetch_timer_did_fire
  fetch_timer_did_fire-Out t m o =
      let m' = drop_fetch_timer w m in
      if_elim (Out w passive) (same? (some t) m.fetch.timer) (fetch_timed_out w m'.current m') m
        (λ _. fetch_timed_out-Out m'.current m' refl (drop_fetch_timer-Out m o)) (λ _. o)

  task_timer_did_fire-Out :
      (t : ℕ) (m : Machine D) → Out w passive m → Out w passive (task_timer_did_fire w t m)
  unfolding task_timer_did_fire
  task_timer_did_fire-Out t m o =
      let m' = drop_task_timer w m in
      if_elim (Out w passive) (same? (some t) m.task.timer) (task_timed_out w m'.current m') m
        (λ _. task_timed_out-Out m'.current m' refl (drop_task_timer-Out m o)) (λ _. o)

  step-Out :
      (m : Machine D) (e : Event D) → KeepsOut w e → Out w passive m → Out w passive (step w m e)
  unfolding step
  step-Out m (Event.world_changes d) k o = world_keeps-Out m d k o
  step-Out m Event.data_changes k o = data_did_change-Out m.current m refl o
  step-Out m Event.enters_background k o = did_enter_background-Out m.current m refl o
  step-Out m Event.enters_foreground k o = did_enter_foreground-Out m.current m refl o
  step-Out m Event.authentication_fails k o = did_fail_authentication-Out m.current m refl o
  step-Out m Event.authentication_data_changes k o =
      authentication_data_changed-Out m.current m refl o
  step-Out m Event.stream_interrupted k o =
      did_request_synchronization-Out m.current (record m { is_stream_active = false }) refl
        (record { out = o.out; here = o.here })
  step-Out m Event.stream_established k o = record { out = o.out; here = o.here }
  step-Out m (Event.starts_fetch h) k o = start_background_fetch-Out h m o
  step-Out m (Event.starts_task h) k o = start_background_task-Out h m o
  step-Out m Event.asks_request k o = next_request-Out w passive m o
  step-Out m (Event.responds h r) k o = complete-Out h r m o
  step-Out m (Event.fetch_timer_fires t) k o = fetch_timer_did_fire-Out t m o
  step-Out m (Event.task_timer_fires t) k o = task_timer_did_fire-Out t m o
  step-Out m (Event.login_timer_fires t) k o =
      send-Out w passive (Command.did_timeout_login t.credentials) m o

  run-Out :
      (m : Machine D) (es : List (Event D))
      → AllKeepOut w es
      → Out w passive m
      → Out w passive (run w m es)
  unfolding run
  run-Out m [] k o = o
  run-Out m (e ∷ es) k o = run-Out (step w m e) es k.1 (step-Out m e k.0 o)

  -- Where messages and requests do not by themselves complete a login, a session that starts
  -- without one is in one of the two login states after any events that do not complete it.
  pub run_stays_out :
      (d : D) (es : List (Event D))
      → is_done_with_login w d ≡ false
      → AllKeepOut w es
      → is_login_state (run w (init w d) es).current ≡ true
  unfolding init
  run_stays_out d es out k =
      (run-Out _ es k (enter_unauthenticated-Out w passive (blank w d) out refl)).here
