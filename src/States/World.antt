-- ===== src/States/World.antt =====
-- What the sync states see of the rest of the session: the phases of the authentication and the
-- client registration (Source/UserSession/ZMAuthenticationStatus.h, ZMClientRegistrationStatus.h),
-- the transcoders of the object strategy directory, the clock and the application state. These
-- enter as a record of observations and reactions over a type `D` of outside states.
use zmessaging_cocoa.Base.{ℕ, Bool, List, Option}

pub data SyncState : Type 0 where
  unauthenticated unauthenticated_background event_processing : SyncState
  slow_sync_phase_one slow_sync_phase_two : SyncState
  update_events_catch_up_phase_one update_events_catch_up_phase_two : SyncState
  download_last_update_event_id : SyncState
  background pre_background background_fetch background_task : SyncState

pub SyncState-discrete : Discrete SyncState
SyncState-discrete = hlevel

pub data AuthenticationPhase : Type 0 where
  unauthenticated login_with_phone login_with_email : AuthenticationPhase
  request_phone_verification_code_for_registration : AuthenticationPhase
  request_phone_verification_code_for_login : AuthenticationPhase
  verify_phone_for_registration : AuthenticationPhase
  register_with_email register_with_phone : AuthenticationPhase
  waiting_for_email_verification authenticated : AuthenticationPhase

pub data ClientRegistrationPhase : Type 0 where
  unregistered waiting_for_login waiting_for_self_user fetching_clients : ClientRegistrationPhase
  waiting_for_deletion waiting_for_email_verification registered : ClientRegistrationPhase

pub data Transcoder : Type 0 where
  flow call_state user_profile_update address_book connection user self conversation : Transcoder
  push_token system_message text_message client_message knock user_image : Transcoder
  search_user_image asset typing removed_suggested_people missing_update_events : Transcoder
  last_update_event registration phone_number_verification login_code_request login : Transcoder

pub data UpdateEventsPolicy : Type 0 where
  process ignore buffer : UpdateEventsPolicy

pub data FetchResult : Type 0 where
  no_data new_data failed : FetchResult

pub data TaskResult : Type 0 where
  unavailable succeed failed : TaskResult

pub data ResponseStatus : Type 0 where
  success permanent_error temporary_error try_again_later expired : ResponseStatus

-- Of a response the states read its status and whether it lists missing clients.
pub record Response : Type 0 where
  pub result : ResponseStatus
  pub has_missing_clients : Bool

-- The completion handlers that the states add to a request.
pub data Handler : Type 0 where
  save_missing_events fetch_error task_outcome catch_up_one_error catch_up_two_error : Handler

pub record Request : Type 0 where
  pub id : ℕ
  pub expires_after : Option ℕ  -- milliseconds
  pub handlers : List Handler

-- Every message that a sync state sends to something other than itself and the machine.
pub data Command : Type 0 where
  did_start_sync did_finish_sync : Command
  start_downloading_missing_notifications : Command
  start_requesting_last_update_event_id persist_last_update_event_id : Command
  set_needs_slow_sync : Transcoder → Command
  process_all_events_in_buffer apply_patches post_did_enter_event_processing : Command
  notify_initial_sync_completed post_synchronization_stopped : Command
  process_stored_invitations save_or_rollback : Command
  session_enter_background session_enter_foreground prepare_for_suspended_state : Command
  begin_activity end_activity : Command
  reset_registration_state add_observer remove_observer : Command
  start_timer : ℕ → ℕ → Command
  cancel_timer : ℕ → Command
  did_timeout_login : ℕ → Command
  complete_fetch : ℕ → FetchResult → Command
  complete_task : ℕ → TaskResult → Command

pub record World (D : Type 0) : Type 0 where
  pub auth_phase : D → AuthenticationPhase
  pub client_phase : D → ClientRegistrationPhase
  pub login_credentials : D → ℕ
  pub is_self_user_complete : D → Bool
  pub in_background : D → Bool  -- applicationState == UIApplicationStateBackground
  pub now : D → ℕ  -- milliseconds
  pub has_last_update_event_id : D → Bool
  pub last_update_event_id : D → Option ℕ
  pub is_downloading_missing_notifications : D → Bool
  pub is_downloading_last_update_event_id : D → Bool
  pub connections_done : D → Bool  -- connectionTranscoder.isSlowSyncDone
  pub conversations_done : D → Bool
  pub users_done : D → Bool
  pub assets_outstanding : D → Bool
  pub has_pending_messages : D → Bool
  pub all_transcoders : List Transcoder
  -- `requestGenerators nextRequest` of a transcoder: a request or none, and its new state.
  pub ask : Transcoder → D → Option ℕ × D
  -- What a message does outside.
  pub react : Command → D → D
