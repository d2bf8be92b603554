-- ===== src/Utility/Tracing/Auth.antt =====
-- ZMTracing.h: authentication and images.
use zmessaging_cocoa.Base.{ℕ, ◌%◌, Bool, Option, [], ◌∷◌, is_some}
use Prim.Native.String.{String}
use zmessaging_cocoa.Utility.Tracing.{Probe, word, text, Trace, fire, flag, int_mod}

pub auth_delete_cookie : ℕ → Trace
auth_delete_cookie d = fire Probe.auth_delete_cookie_data (word d ∷ [])

pub auth_add_cookie_data : ℕ → Trace
auth_add_cookie_data d = fire Probe.auth_add_cookie_data (word d ∷ [])

pub auth_update_cookie_data : ℕ → Trace
auth_update_cookie_data d = fire Probe.auth_update_cookie_data (word d ∷ [])

pub auth_locked_keychain_detected : Trace
auth_locked_keychain_detected = fire Probe.auth_detected_locked_keychain []

pub auth_user_session_started : Bool → Bool → Trace
auth_user_session_started has_cookie has_credentials =
    fire Probe.auth_user_session_started (flag has_cookie ∷ flag has_credentials ∷ [])

-- The length is cast to an int.
pub auth_user_session_login : Option String → ℕ → Trace
auth_user_session_login email password_length =
    fire Probe.auth_user_session_login (text email ∷ word (password_length % int_mod) ∷ [])

pub auth_credentials_deleted : Trace
auth_credentials_deleted = fire Probe.auth_credentials_deleted []

pub auth_credentials_set : Trace
auth_credentials_set = fire Probe.auth_credentials_set []

pub auth_login_state_fired_login_timer : Trace
auth_login_state_fired_login_timer = fire Probe.auth_login_state_fire_login_timer []

pub auth_login_state_enter : ℕ → Trace
auth_login_state_enter d = fire Probe.auth_login_state_enter (word d ∷ [])

pub auth_login_state_next_request : ℕ → Option ℕ → Trace
auth_login_state_next_request d request =
    fire Probe.auth_login_state_next_request (word d ∷ flag (is_some request) ∷ [])

pub auth_request_will_contain_token : Option String → Trace
auth_request_will_contain_token path = fire Probe.auth_request_will_contain_token (text path ∷ [])

pub auth_request_will_contain_cookie : Option String → Trace
auth_request_will_contain_cookie path = fire Probe.auth_request_will_contain_cookie (text path ∷ [])

pub auth_token_response : ℕ → Bool → Trace
auth_token_response http_status has_new_token =
    fire Probe.auth_access_token_response (word (http_status % int_mod) ∷ flag has_new_token ∷ [])

pub image_downsample_original : ℕ → Option String → Trace
image_downsample_original size format =
    fire Probe.image_downsample_original (word size ∷ text format ∷ [])

pub image_downsample_scale : ℕ → Option String → Trace
image_downsample_scale size format =
    fire Probe.image_downsample_scale (word size ∷ text format ∷ [])

pub image_downsample_recompress : ℕ → Option String → Trace
image_downsample_recompress size format =
    fire Probe.image_downsample_recompress (word size ∷ text format ∷ [])
