-- ===== src/States/Machine.antt =====
-- The machine's state (ZMSyncStateMachine.m and the properties of each ZM...State.m), and what its
-- states do when they are entered and left. A call that reaches outside is recorded in `log`,
-- newest first, and changes `outside` by the world's reaction.
use zmessaging_cocoa.Base.{
  ℕ, suc, Bool, true, false, not, ◌&&◌, ◌||◌, List, ◌∷◌, Option, none, some, if◌then◌else◌, same?,
}
use zmessaging_cocoa.States.World.{
  SyncState, slow_sync_phase_two, background, pre_background, background_fetch, background_task,
  AuthenticationPhase, login_with_phone, login_with_email, authenticated, ClientRegistrationPhase,
  registered, FetchResult, no_data, new_data, TaskResult, succeed, Command,
  persist_last_update_event_id, session_enter_foreground, end_activity, remove_observer,
  start_timer, cancel_timer, complete_fetch, complete_task, World,
}

-- ZMBackgroundFetchState. `maximum_time` is in milliseconds.
pub record Fetch : Type 0 where
  pub error_in_downloading : Bool
  pub event_id_at_start : Option ℕ
  pub did_request_assets : Bool
  pub timer : Option ℕ
  pub maximum_time : ℕ
  pub handler : Option ℕ

-- ZMBackgroundTaskState.
pub record Task : Type 0 where
  pub is_requesting_clients : Bool
  pub has_missing_clients : Bool
  pub error_performing_task : Bool
  pub did_finish_task : Bool
  pub timer : Option ℕ
  pub maximum_time : ℕ
  pub handler : Option ℕ

-- `loginFailureTimer` with the credentials in its `userInfo`.
pub record LoginTimer : Type 0 where
  pub id : ℕ
  pub credentials : ℕ

-- ZMUnauthenticatedState.
pub record Login : Type 0 where
  pub timer : Option LoginTimer
  pub last_timer_start : Option ℕ
  pub did_launch_in_foreground : Bool

pub record Machine (D : Type 0) : Type 0 where
  pub current : SyncState
  pub outside : D
  pub log : List Command
  pub next_timer : ℕ
  pub is_stream_active : Bool
  pub fetch : Fetch
  pub task : Task
  pub login : Login
  pub error_in_phase_one : Bool
  pub error_in_phase_two : Bool
  pub has_activity : Bool
  pub did_prepare_for_suspend : Bool
  pub is_syncing : Bool

abbrev pub maximum_time_in_state : ℕ
maximum_time_in_state = 25000

abbrev pub login_timeout : ℕ
login_timeout = 30000

abbrev pub request_failure_buffer_time : ℕ
request_failure_buffer_time = 50

abbrev pub is_login_phase : AuthenticationPhase → Bool
is_login_phase login_with_email = true
is_login_phase login_with_phone = true
is_login_phase _ = false

abbrev pub is_authenticated : AuthenticationPhase → Bool
is_authenticated authenticated = true
is_authenticated _ = false

abbrev pub is_registered : ClientRegistrationPhase → Bool
is_registered registered = true
is_registered _ = false

module _ {D : Type 0} (w : World D) where
  -- A message to something outside the machine.
  unfoldable pub send : Command → Machine D → Machine D
  send c m = record m { outside = w.react c m.outside; log = c ∷ m.log }

  pub is_logged_in : D → Bool
  is_logged_in d = is_authenticated (w.auth_phase d) && is_registered (w.client_phase d)

  unfoldable pub is_done_with_login : D → Bool
  unfolding is_logged_in
  is_done_with_login d = is_logged_in d && w.is_self_user_complete d

  -- `shouldRunTimerForLoginExpiration`
  abbrev pub runs_login_timer : D → Bool
  runs_login_timer d = is_login_phase (w.auth_phase d)

  unfoldable pub can_go_to_background : D → Bool
  can_go_to_background d = not (w.has_pending_messages d)

  -- `[timer cancel]`, which does nothing on nil.
  unfoldable pub cancel : Option ℕ → Machine D → Machine D
  cancel none m = m
  cancel (some t) m = send (cancel_timer t) m

  unfoldable pub cancel_login_timer : Machine D → Machine D
  unfolding send
  cancel_login_timer m = elim m.login.timer [
    | none ↦ m
    | some t ↦ send (cancel_timer t.id) (record m { login = record (m.login) { timer = none } })
  ]

  pub stop_login_timer : Machine D → Machine D
  unfolding cancel_login_timer
  stop_login_timer m =
      let m' = cancel_login_timer m in
      record m' { login = record (m'.login) { last_timer_start = none } }

  unfoldable pub start_login_timer : Machine D → Machine D
  unfolding cancel_login_timer send
  start_login_timer m =
      let m' = cancel_login_timer m in
      send (start_timer m'.next_timer login_timeout) (record m' {
        next_timer = suc m'.next_timer;
        login = record (m'.login) {
          timer =
              some (record { id = m'.next_timer; credentials = w.login_credentials m'.outside });
          last_timer_start = some (w.now m'.outside);
        };
      })

  pub did_download_events : Machine D → Bool
  did_download_events m = not (same? m.fetch.event_id_at_start (w.last_update_event_id m.outside))

  pub fetch_result : Machine D → FetchResult
  unfolding did_download_events
  fetch_result m =
      if m.fetch.error_in_downloading
      then FetchResult.failed
      else if did_download_events m || m.fetch.did_request_assets
      then new_data
      else no_data

  -- `markFetchAsComplete` of the background fetch state.
  unfoldable pub mark_fetch_as_complete : Machine D → Machine D
  unfolding send
  mark_fetch_as_complete m = elim m.fetch.handler [
    | none ↦ m
    | some h ↦ record (send (complete_fetch h (fetch_result m)) m) {
      fetch = record (m.fetch) { handler = none };
    }
  ]

  pub task_result : Machine D → TaskResult
  task_result m =
      if m.task.error_performing_task
      then TaskResult.failed
      else if m.task.did_finish_task
      then succeed
      else TaskResult.failed

  -- `markFetchAsComplete` of the background task state.
  unfoldable pub mark_task_as_complete : Machine D → Machine D
  unfolding send
  mark_task_as_complete m = elim m.task.handler [
    | none ↦ m
    | some h ↦ record (send (complete_task h (task_result m)) m) {
      task = record (m.task) { handler = none };
    }
  ]

  pub leave_background_fetch : Machine D → Machine D
  unfolding cancel mark_fetch_as_complete
  leave_background_fetch m =
      let m' = cancel m.fetch.timer m in
      mark_fetch_as_complete (record m' { fetch = record (m'.fetch) { timer = none } })

  pub leave_background_task : Machine D → Machine D
  unfolding cancel mark_task_as_complete
  leave_background_task m =
      let m' = cancel m.task.timer m in
      mark_task_as_complete (record m' { task = record (m'.task) { timer = none } })

  -- `[self.activity endActivity]; self.activity = nil`
  pub end_pre_background_activity : Machine D → Machine D
  end_pre_background_activity m =
      if m.has_activity then record (send end_activity m) { has_activity = false } else m

  -- `didLeaveState` of each state; the base class does nothing.
  unfoldable pub leave : SyncState → Machine D → Machine D
  unfolding leave_background_fetch leave_background_task end_pre_background_activity
      stop_login_timer
  leave SyncState.unauthenticated m = send remove_observer (stop_login_timer m)
  leave slow_sync_phase_two m = send persist_last_update_event_id m
  leave background m = send session_enter_foreground m
  leave pre_background m = end_pre_background_activity m
  leave background_fetch m = leave_background_fetch m
  leave background_task m = leave_background_task m
  leave _ m = m
