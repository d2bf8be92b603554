-- ===== src/States/Requests.antt =====
-- `nextRequest` of every state and of the machine (ZMSyncStateMachine.m), whose loop asks again as
-- long as asking moved the machine to another state.
use zmessaging_cocoa.Base.{
  Bool, ℕ, zero, suc, ◌+◌, ◌-◌, true, false, not, ◌&&◌, ◌||◌, List, [], ◌∷◌, Option, none, some,
  ltb, if◌then◌else◌, is_none, is_some,
}
use zmessaging_cocoa.States.World.{
  SyncState, SyncState-discrete, Transcoder, Command, World, Request, Handler, AuthenticationPhase,
  ClientRegistrationPhase,
}
use zmessaging_cocoa.States.Machine.{
  Machine, login_timeout, request_failure_buffer_time, send, is_done_with_login, runs_login_timer,
  start_login_timer,
}
use zmessaging_cocoa.States.Transitions.{go_to, start_quick_sync}
use mathlib.Core.Logic.{ite}

abbrev pub plain : ℕ → Request
plain n = record { id = n; expires_after = none; handlers = [] }

abbrev pub with_handler : Handler → Request → Request
with_handler h r = record r { handlers = h ∷ r.handlers }

abbrev pub expiring : ℕ → Request → Request
expiring time r = record r { expires_after = some time }

-- A message to a request that may be nil.
abbrev pub to_request : (Request → Request) → Option Request → Option Request
to_request f none = none
to_request f (some r) = some (f r)

abbrev pub sync_objects : List Transcoder
sync_objects =
    Transcoder.flow ∷ Transcoder.call_state ∷ Transcoder.user_profile_update
    ∷ Transcoder.address_book ∷ Transcoder.connection ∷ Transcoder.user ∷ Transcoder.self
    ∷ Transcoder.conversation ∷ Transcoder.push_token ∷ Transcoder.system_message
    ∷ Transcoder.text_message ∷ Transcoder.client_message ∷ Transcoder.knock ∷ Transcoder.user_image
    ∷ Transcoder.search_user_image ∷ Transcoder.asset ∷ Transcoder.typing
    ∷ Transcoder.removed_suggested_people ∷ []

-- The transcoders that the background and the pre-background state ask.
abbrev pub background_transcoders : List Transcoder
background_transcoders =
    Transcoder.flow ∷ Transcoder.system_message ∷ Transcoder.text_message
    ∷ Transcoder.client_message ∷ Transcoder.self ∷ Transcoder.asset ∷ []

module _ {D : Type 0} (w : World D) where
  abbrev pub Reply : Type 0
  Reply = Option Request × Machine D

  -- `[transcoder.requestGenerators nextRequest]`
  unfoldable pub ask_one : Transcoder → Machine D → Reply
  ask_one t m =
      let (answer, d) = w.ask t m.outside in
      (elim answer [ none ↦ none | some n ↦ some (plain n) ], record m { outside = d })

  -- `nextRequestFromTranscoders:`, the first request that is not nil.
  unfoldable pub next_request_from : List Transcoder → Machine D → Reply
  next_request_from [] m = (none, m)
  next_request_from (t ∷ ts) m =
      let (answer, m') = ask_one t m in
      let rest = next_request_from ts m' in elim answer [ none ↦ rest | some r ↦ (some r, m') ]

  -- `shouldStartQuickSync`, which notes a launch in the foreground.
  unfoldable pub note_foreground : Machine D → Machine D
  note_foreground m =
      if not m.login.did_launch_in_foreground && not (w.in_background m.outside)
      then record m { login = record (m.login) { did_launch_in_foreground = true } }
      else m

  unfoldable pub quick_sync_if_due : Machine D → Machine D
  quick_sync_if_due m =
      let noted = note_foreground m in
      if is_done_with_login w noted.outside && noted.login.did_launch_in_foreground
      then start_quick_sync w (go_to w) noted
      else noted

  -- The login request gets an expiry before the login timer fires, counted from when that was
  -- started, or is dropped when that is due. (Where this is called the timer has been started.)
  unfoldable pub expire_in_time : Option ℕ → Option Request → Machine D → Reply
  expire_in_time none request m = (none, m)
  expire_in_time (some start) request m =
      let due = start + login_timeout in
      let limit = w.now m.outside + request_failure_buffer_time in
      if ltb limit due then (to_request (expiring (due - limit)) request, m) else (none, m)

  unfoldable pub ensure_login_timer : Machine D → Machine D
  ensure_login_timer m = if is_none m.login.last_timer_start then start_login_timer w m else m

  unfoldable pub login_request : Machine D → Reply
  login_request m =
      let (request, m') = ask_one Transcoder.login m in
      let timed = ensure_login_timer m' in
      if runs_login_timer w m'.outside
      then expire_in_time timed.login.last_timer_start request timed
      else (request, m')

  -- A request, or else the reply of what is asked next.
  abbrev pub or_else : Reply → (Machine D → Reply) → Reply
  or_else (some r, m) next = (some r, m)
  or_else (none, m) next = next m

  unfoldable pub authenticated_request : ClientRegistrationPhase → Machine D → Reply
  authenticated_request ClientRegistrationPhase.waiting_for_self_user m = ask_one Transcoder.self m
  authenticated_request ClientRegistrationPhase.waiting_for_email_verification m =
      or_else (or_else (ask_one Transcoder.user_profile_update m) login_request)
        (ask_one Transcoder.self)
  authenticated_request _ m = (none, m)

  unfoldable pub phase_request : AuthenticationPhase → Machine D → Reply
  phase_request AuthenticationPhase.login_with_email m = login_request m
  phase_request AuthenticationPhase.login_with_phone m = login_request m
  phase_request AuthenticationPhase.waiting_for_email_verification m = login_request m
  phase_request AuthenticationPhase.register_with_email m = ask_one Transcoder.registration m
  phase_request AuthenticationPhase.register_with_phone m = ask_one Transcoder.registration m
  phase_request AuthenticationPhase.request_phone_verification_code_for_registration m =
      ask_one Transcoder.phone_number_verification m
  phase_request AuthenticationPhase.verify_phone_for_registration m =
      ask_one Transcoder.phone_number_verification m
  phase_request AuthenticationPhase.request_phone_verification_code_for_login m =
      ask_one Transcoder.login_code_request m
  phase_request AuthenticationPhase.unauthenticated m = login_request m
  phase_request AuthenticationPhase.authenticated m =
      authenticated_request (w.client_phase m.outside) m

  unfoldable pub unauthenticated_request : Machine D → Reply
  unauthenticated_request m =
      if is_done_with_login w m.outside
      then (none, quick_sync_if_due m)
      else phase_request (w.auth_phase m.outside) m

  unfoldable pub event_processing_request : Machine D → Reply
  event_processing_request m =
      let (request, m') = next_request_from sync_objects m in
      let stopped =
        if m'.is_syncing && is_none request
        then send w Command.post_synchronization_stopped (record m' { is_syncing = false })
        else m' in
      (request, record stopped { is_syncing = is_some request })

  -- `nextRequest` of both catch-up phases, which differ in the flag that their handler sets.
  unfoldable pub catch_up_request : Handler → Machine D → Reply
  catch_up_request h m =
      let (request, m') = ask_one Transcoder.missing_update_events m in
      elim request [
        | none ↦ ask_one Transcoder.user_profile_update m'
        | some r ↦ (some (with_handler h r), m')
      ]

  unfoldable pub background_request : Machine D → Reply
  background_request m =
      let (request, m') = next_request_from background_transcoders m in
      if is_none request && not m'.did_prepare_for_suspend
      then (
        request,
        send w Command.prepare_for_suspended_state (record m' { did_prepare_for_suspend = true }),
      )
      else (request, m')

  -- `transitionOutIfComplete` of the background fetch state.
  unfoldable pub fetch_out_if_complete : Machine D → Machine D
  fetch_out_if_complete m =
      if m.fetch.error_in_downloading
      then go_to w SyncState.pre_background m
      else if not (w.is_downloading_missing_notifications m.outside)
          && not (w.assets_outstanding m.outside)
      then go_to w SyncState.pre_background m
      else m

  unfoldable pub fetch_assets_request : Machine D → Reply
  fetch_assets_request m =
      let (request, m') = ask_one Transcoder.asset m in
      (
        request,
        if is_some request
            then record m' { fetch = record (m'.fetch) { did_request_assets = true } }
            else m',
      )

  unfoldable pub background_fetch_request : Machine D → Reply
  background_fetch_request m =
      let (missing, m') = ask_one Transcoder.missing_update_events m in
      let (request, asked) =
        or_else (to_request (with_handler Handler.save_missing_events) missing, m')
          fetch_assets_request in
      if is_none request
      then (none, fetch_out_if_complete asked)
      else (to_request (with_handler Handler.fetch_error) request, asked)

  -- `transitionOutIfComplete` of the background task state.
  unfoldable pub task_out_if_complete : Machine D → Machine D
  task_out_if_complete m =
      if m.task.error_performing_task || m.task.did_finish_task
      then go_to w SyncState.pre_background m
      else m

  unfoldable pub background_task_request : Machine D → Reply
  background_task_request m =
      let (request, asked) = ask_one Transcoder.client_message m in
      if is_none request
      then (none, task_out_if_complete asked)
      else (to_request (with_handler Handler.task_outcome) request, asked)

  abbrev pub slow_sync_one_request : Machine D → Reply
  slow_sync_one_request m =
      next_request_from
        (Transcoder.connection ∷ Transcoder.conversation ∷ Transcoder.user_profile_update ∷ []) m

  abbrev pub slow_sync_two_request : Machine D → Reply
  slow_sync_two_request m =
      next_request_from (Transcoder.user ∷ Transcoder.user_profile_update ∷ []) m

  abbrev pub download_last_event_request : Machine D → Reply
  download_last_event_request m =
      next_request_from (Transcoder.last_update_event ∷ Transcoder.user_profile_update ∷ []) m

  abbrev pub pre_background_request : Machine D → Reply
  pre_background_request m = next_request_from background_transcoders m

  -- `nextRequest` of each state.
  unfoldable pub state_request : SyncState → Machine D → Reply
  unfolding unauthenticated_request event_processing_request catch_up_request background_request
      background_fetch_request background_task_request
  state_request SyncState.unauthenticated m = unauthenticated_request m
  state_request SyncState.unauthenticated_background m = (none, m)
  state_request SyncState.event_processing m = event_processing_request m
  state_request SyncState.slow_sync_phase_one m = slow_sync_one_request m
  state_request SyncState.slow_sync_phase_two m = slow_sync_two_request m
  state_request SyncState.update_events_catch_up_phase_one m =
      catch_up_request Handler.catch_up_one_error m
  state_request SyncState.update_events_catch_up_phase_two m =
      catch_up_request Handler.catch_up_two_error m
  state_request SyncState.download_last_update_event_id m = download_last_event_request m
  state_request SyncState.background m = background_request m
  state_request SyncState.pre_background m = pre_background_request m
  state_request SyncState.background_fetch m = background_fetch_request m
  state_request SyncState.background_task m = background_task_request m

  -- The test of the loop: no request came, and the state is no longer the one that was asked.
  abbrev pub asks_again : SyncState → Reply → Bool
  asks_again initial (request, m) =
      is_none request && not (ite (SyncState-discrete m.current initial) true false)

  -- The loop of `nextRequest`. With no fuel left it gives `none`, which is no reply at all.
  unfoldable pub request_loop : ℕ → Machine D → Option Reply
  request_loop zero m = none
  request_loop (suc fuel) m =
      let reply = state_request m.current m in
      let again = request_loop fuel reply.1 in
      if asks_again m.current reply then again else some reply

  -- The loop with three rounds, more than it takes; a machine that would go on keeps its state.
  unfoldable pub next_request : Machine D → Reply
  next_request m = elim (request_loop 3 m) [ none ↦ (none, m) | some r ↦ r ]
