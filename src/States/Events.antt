-- ===== src/States/Events.antt =====
-- What reaches the machine from outside: the calls of ZMSyncStateMachine.m, which it passes to the
-- current state, the timers, the completion handlers of requests, and changes of the world.
mod Advance
mod Sides
mod Timers
unfoldable pub use Advance.{data_did_change}
unfoldable pub use Sides.{
  did_enter_background, did_enter_foreground, did_fail_authentication, did_request_synchronization,
  update_events_policy,
}
unfoldable pub use Timers.{
  start_background_fetch, start_background_task, fetch_timed_out, drop_fetch_timer,
  fetch_timer_did_fire, task_timed_out, drop_task_timer, task_timer_did_fire,
  supports_background_fetch,
}
use zmessaging_cocoa.Base.{ℕ, Bool, true, false, List, [], ◌∷◌, none, if◌then◌else◌}
use zmessaging_cocoa.States.World.{
  SyncState, Command, World, Handler, AuthenticationPhase, ResponseStatus, Response,
}
use zmessaging_cocoa.States.Machine.{
  LoginTimer, Machine, send, start_login_timer, runs_login_timer, cancel_login_timer,
}
use zmessaging_cocoa.States.Transitions.{go_to, enter}
use zmessaging_cocoa.States.Requests.{quick_sync_if_due, next_request}

abbrev pub is_register_phase : AuthenticationPhase → Bool
is_register_phase AuthenticationPhase.register_with_email = true
is_register_phase AuthenticationPhase.register_with_phone = true
is_register_phase _ = false

abbrev pub is_success : ResponseStatus → Bool
is_success ResponseStatus.success = true
is_success _ = false

abbrev pub is_permanent_error : ResponseStatus → Bool
is_permanent_error ResponseStatus.permanent_error = true
is_permanent_error _ = false

pub data Event (D : Type 0) : Type 0 where
  world_changes : D → Event D
  data_changes enters_background enters_foreground : Event D
  authentication_fails authentication_data_changes : Event D
  stream_interrupted stream_established : Event D
  starts_fetch starts_task : ℕ → Event D
  asks_request : Event D
  responds : Handler → Response → Event D
  fetch_timer_fires task_timer_fires : ℕ → Event D
  login_timer_fires : LoginTimer → Event D

module _ {D : Type 0} (w : World D) where
  -- The login timer starts anew in a login phase, and is cancelled in any other.
  unfoldable pub renew_login_timer : Machine D → Machine D
  renew_login_timer m =
      let cancelled = cancel_login_timer w m in
      if runs_login_timer w cancelled.outside then start_login_timer w cancelled else cancelled

  -- `didChangeAuthenticationData` up to its call of `dataDidChange`.
  unfoldable pub renew_login : Machine D → Machine D
  unfolding renew_login_timer
  renew_login m =
      let timed = renew_login_timer m in
      if is_register_phase (w.auth_phase timed.outside)
      then send w Command.reset_registration_state timed
      else timed

  -- `didChangeAuthenticationData`; only the unauthenticated state observes it.
  unfoldable pub did_change_authentication_data : Machine D → Machine D
  unfolding renew_login
  did_change_authentication_data m = quick_sync_if_due w (renew_login m)

  unfoldable pub authentication_data_changed : SyncState → Machine D → Machine D
  authentication_data_changed SyncState.unauthenticated m = did_change_authentication_data m
  authentication_data_changed _ m = m

  -- The blocks that run when the response to a request has come.
  unfoldable pub complete : Handler → Response → Machine D → Machine D
  complete Handler.save_missing_events r m =
      if is_success r.result then send w Command.save_or_rollback m else m
  complete Handler.fetch_error r m =
      if is_success r.result
      then m
      else record m { fetch = record (m.fetch) { error_in_downloading = true } }
  complete Handler.task_outcome r m = elim r.result [
    | ResponseStatus.success ↦
        send w Command.save_or_rollback
          (record m { task = record (m.task) { did_finish_task = true } })
    | ResponseStatus.permanent_error ↦
        if r.has_missing_clients
        then m
        else record m { task = record (m.task) { error_performing_task = true } }
    | ResponseStatus.expired ↦ record m { task = record (m.task) { error_performing_task = true } }
    | _ ↦ m
  ]
  complete Handler.catch_up_one_error r m =
      if is_permanent_error r.result then record m { error_in_phase_one = true } else m
  complete Handler.catch_up_two_error r m =
      if is_permanent_error r.result then record m { error_in_phase_two = true } else m

  unfoldable pub step : Machine D → Event D → Machine D
  unfolding authentication_data_changed
  step m (Event.world_changes d) = record m { outside = d }
  step m Event.data_changes = data_did_change w m.current m
  step m Event.enters_background = did_enter_background w m.current m
  step m Event.enters_foreground = did_enter_foreground w m.current m
  step m Event.authentication_fails = did_fail_authentication w m.current m
  step m Event.authentication_data_changes = authentication_data_changed m.current m
  step m Event.stream_interrupted =
      did_request_synchronization w m.current (record m { is_stream_active = false })
  step m Event.stream_established = record m { is_stream_active = true }
  step m (Event.starts_fetch h) = start_background_fetch w h m
  step m (Event.starts_task h) = start_background_task w h m
  step m Event.asks_request = (next_request w m).1
  step m (Event.responds h r) = complete h r m
  step m (Event.fetch_timer_fires t) = fetch_timer_did_fire w t m
  step m (Event.task_timer_fires t) = task_timer_did_fire w t m
  step m (Event.login_timer_fires t) = send w (Command.did_timeout_login t.credentials) m

  unfoldable pub run : Machine D → List (Event D) → Machine D
  run m [] = m
  run m (e ∷ es) = run (step m e) es

  -- The machine before any state is entered.
  abbrev pub blank : D → Machine D
  blank d = record {
    current = SyncState.unauthenticated;
    outside = d;
    log = [];
    next_timer = 0;
    is_stream_active = false;
    fetch = record {
      error_in_downloading = false;
      event_id_at_start = none;
      did_request_assets = false;
      timer = none;
      maximum_time = 0;
      handler = none;
    };
    task = record {
      is_requesting_clients = false;
      has_missing_clients = false;
      error_performing_task = false;
      did_finish_task = false;
      timer = none;
      maximum_time = 0;
      handler = none;
    };
    login = record { timer = none; last_timer_start = none; did_launch_in_foreground = false };
    error_in_phase_one = false;
    error_in_phase_two = false;
    has_activity = false;
    did_prepare_for_suspend = false;
    is_syncing = false;
  }

  -- `init...`: no state is left, and the unauthenticated state entered.
  unfoldable pub init : D → Machine D
  init d = enter w (go_to w) SyncState.unauthenticated (blank d)
