-- ===== src/Utility/Tracing.antt =====
-- Source/Utility/ZMTracing.h: the inline functions that fire the tracing probes. The probes are
-- generated (ZMTracingProbes.h): which of them are enabled is a parameter, and firing a probe that
-- is not enabled has no effect. An integer is its bit pattern, as is a double, and an object its
-- address.
pub mod Codes
pub mod Sync
pub mod Transport
pub mod Calling
pub mod Auth
pub mod Laws
use zmessaging_cocoa.Base.{ℕ, Bool, true, false, Option, none, some, List, [], ◌∷◌, if◌then◌else◌}
use Prim.Native.String.{String}

pub data Probe : Type 0 where
  sync_operation_loop_enqueue sync_operation_loop_push_channel_data : Probe
  sync_strategy_go_to_state sync_strategy_leave_state : Probe
  sync_strategy_update_event sync_strategy_update_event_string : Probe
  ui_notification transcoder_call_state_req_update_is_joined : Probe
  transport_access_token_request transport_push_channel_creation : Probe
  transport_push_channel_creation_backoff transport_push_channel_creation_event : Probe
  transport_session_task_error transport_session_reachability : Probe
  transport_request_scheduler transport_push_channel_ping_start_stop : Probe
  transport_push_channel_ping_fired transport_push_channel_event : Probe
  transport_web_socket_event transport_network_socket_event : Probe
  calling_session calling_device_is_active calling_flow_manager_category : Probe
  calling_push_event_participant calling_downstream_event_participant : Probe
  calling_upstream_event_participant calling_push_event_self : Probe
  calling_downstream_event_self calling_upstream_event_self : Probe
  calling_flow_acquire calling_flow_release calling_voice_gain : Probe
  core_data_enqueue_save core_data_perform_group_enter core_data_manual_refresh : Probe
  core_data_perform_group_exit auth_delete_cookie_data auth_add_cookie_data : Probe
  auth_update_cookie_data auth_detected_locked_keychain auth_user_session_started : Probe
  auth_user_session_login auth_credentials_deleted auth_credentials_set : Probe
  auth_login_state_fire_login_timer auth_login_state_enter auth_login_state_next_request : Probe
  auth_request_will_contain_token auth_request_will_contain_cookie : Probe
  auth_access_token_response image_downsample_original image_downsample_scale : Probe
  image_downsample_recompress : Probe

-- An argument of a probe; a text may be missing (NULL).
pub data Value : Type 0 where
  word : ℕ → Value
  text : Option String → Value

pub record Fired : Type 0 where
  pub probe : Probe
  pub values : List Value

abbrev pub Trace : Type 0
Trace = List Fired

abbrev pub fire : Probe → List Value → Trace
fire p vs = record { probe = p; values = vs } ∷ []

abbrev pub int_mod : ℕ
int_mod = 4294967296

abbrev pub flag : Bool → Value
flag true = word 1
flag false = word 0

-- `[uuid transportString].UTF8String`, which is NULL for nil.
abbrev pub uuid_text : (ℕ → String) → Option ℕ → Value
uuid_text transport_string none = text none
uuid_text transport_string (some u) = text (some (transport_string u))

module _ (enabled : Probe → Bool) where
  -- `if (..._ENABLED()) { ...(...); }`
  abbrev pub gate : Probe → List Value → Trace
  gate p vs = if enabled p then fire p vs else []

  -- What a tracer sees of the probes that are fired.
  unfoldable pub reported : Trace → Trace
  reported [] = []
  reported (f ∷ t) = let rest = reported t in if enabled f.probe then f ∷ rest else rest
