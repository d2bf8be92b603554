-- ===== src/Session/Authentication.antt =====
-- ZMAuthenticationStatus.m: what the user has given to log in or to register, and the phase that
-- follows from it. Texts are numbers; the cookie storage and the persistent metadata hold one value
-- each, `cookie` and `registered_on_this_device`. Notifications, cookie policies and traces that are
-- sent are recorded, newest first; `validate` is the phone number validator's.
pub mod Steps
pub mod Phases
pub mod Pending
use zmessaging_cocoa.Base.{
  ℕ, Bool, true, false, not, ◌&&◌, ◌||◌, Option, none, some, List, [], ◌∷◌, if◌then◌else◌, is_some,
  is_none, ◌==◌, ◌+◌,
}
use zmessaging_cocoa.States.World.{AuthenticationPhase}
use zmessaging_cocoa.Session.Codes.{UserSessionErrorCode, user_session_error_code_code}
use zmessaging_cocoa.Session.Errors.{Error, user_session_error}
use zmessaging_cocoa.Session.Credentials.{
  Credentials, credential_with_email, credential_with_phone, email_credentials,
}
use zmessaging_cocoa.Session.Notifications.{
  RegistrationNote, AuthenticationNote, notify_registration_did_fail,
  notify_phone_number_verification_did_fail, notify_phone_number_verification_code_request_did_fail,
  notify_phone_number_verification_code_request_did_succeed, notify_email_verification_did_succeed,
  notify_phone_number_verification_did_succeed, notify_authentication_did_fail,
  notify_login_code_request_did_fail, notify_login_code_request_did_succeed,
}

-- ZMCompleteRegistrationUser, as far as it is read.
pub record RegistrationUser : Type 0 where
  pub address : ℕ
  pub email_address : Option ℕ
  pub password : Option ℕ
  pub phone_number : Option ℕ
  pub phone_verification_code : Option ℕ
  pub invitation_code : Option ℕ

pub data Note : Type 0 where
  registration : RegistrationNote → Note
  authentication : AuthenticationNote → Note
  data_changed : Note
  accepts_cookies : Bool → Note

pub record Status : Type 0 where
  pub cookie : Option ℕ
  pub registration_phone_number : Option ℕ
  pub login_phone_number : Option ℕ
  pub login_credentials : Option Credentials
  pub registration_phone_credentials : Option Credentials
  pub registration_user : Option RegistrationUser
  pub is_waiting_for_email_verification : Bool
  pub registered_on_this_device : Bool
  pub duplicate_registration_email : Bool
  pub duplicate_registration_phone_number : Bool
  pub is_waiting_for_login : Bool
  pub sent : List Note
  pub next_address : ℕ

-- Messages of the interface that change the status.
pub data Call : Type 0 where
  set_authentication_cookie_data : Option ℕ → Call
  prepare_for_registration_of_user : RegistrationUser → Call
  prepare_for_login_with_credentials : Credentials → Call
  cancel_waiting_for_email_verification : Call
  prepare_for_requesting_code_for_registration : ℕ → Call
  prepare_for_requesting_code_for_login : ℕ → Call
  prepare_for_registration_phone_verification : Credentials → Call
  did_complete_registration_successfully did_fail_registration_with_duplicated_email : Call
  did_fail_registration_for_other_reasons : Error → Call
  did_complete_request_for_phone_registration_code_successfully : Call
  did_fail_request_for_phone_registration_code : Error → Call
  did_complete_request_for_login_code_successfully : Call
  did_fail_request_for_login_code : Error → Call
  did_complete_phone_verification_successfully : Call
  did_fail_phone_verification_for_registration : Error → Call
  login_succeed : Call
  did_fail_login_with_phone : Bool → Call
  did_fail_login_with_email_because_pending_validation : Call
  did_fail_login_with_email : Bool → Call
  did_timeout_login_for_credentials : Option Credentials → Call
  credentials_may_be_cleared : Call

unfoldable pub is_logged_in : Status → Bool
is_logged_in s = is_some s.cookie

abbrev pub init : Option ℕ → Bool → Status
init cookie registered = record {
  cookie = cookie;
  registration_phone_number = none;
  login_phone_number = none;
  login_credentials = none;
  registration_phone_credentials = none;
  registration_user = none;
  is_waiting_for_email_verification = false;
  registered_on_this_device = registered;
  duplicate_registration_email = false;
  duplicate_registration_phone_number = false;
  is_waiting_for_login = is_none cookie;
  sent = [];
  next_address = 0;
}

abbrev pub post : Note → Status → Status
post n s = record s { sent = n ∷ s.sent }

-- The setter of `registrationUser`; a user is compared by its address.
abbrev same_user : Option RegistrationUser → Option RegistrationUser → Bool
same_user none none = true
same_user (some a) (some b) = a.address == b.address
same_user none (some b) = false
same_user (some a) none = false

abbrev has_email_address : Option RegistrationUser → Bool
has_email_address none = false
has_email_address (some u) = is_some u.email_address

unfoldable pub set_registration_user : Option RegistrationUser → Status → Status
set_registration_user u s =
    if same_user s.registration_user u
    then s
    else post Note.data_changed (
        post (Note.accepts_cookies (not (has_email_address u)))
          (record s { registration_user = u }))

abbrev pub same_credentials : Option Credentials → Option Credentials → Bool
same_credentials none none = true
same_credentials (some a) (some b) = a.address == b.address
same_credentials none (some b) = false
same_credentials (some a) none = false

unfoldable pub set_login_credentials : Option Credentials → Status → Status
set_login_credentials c s =
    if same_credentials c s.login_credentials
    then s
    else post Note.data_changed
        (post (Note.accepts_cookies true) (record s { login_credentials = c }))

unfoldable pub reset : Status → Status
unfolding set_registration_user
reset s =
    let cleared = set_registration_user none (record s {
      registration_phone_number = none;
      login_phone_number = none;
      login_credentials = none;
      registration_phone_credentials = none;
    }) in
    record cleared {
      is_waiting_for_email_verification = false;
      duplicate_registration_email = false;
      duplicate_registration_phone_number = false;
    }

abbrev user_has_code : Option RegistrationUser → Bool
user_has_code none = false
user_has_code (some u) = is_some u.phone_verification_code || is_some u.invitation_code

abbrev with_email : Option Credentials → Bool
with_email none = false
with_email (some c) = is_some c.email

abbrev with_phone : Option Credentials → Bool
with_phone none = false
with_phone (some c) = is_some c.phone_number

unfoldable pub current_phase : Status → AuthenticationPhase
current_phase s =
    if is_some s.cookie
    then AuthenticationPhase.authenticated
    else if s.is_waiting_for_email_verification
    then AuthenticationPhase.waiting_for_email_verification
    else if has_email_address s.registration_user
    then AuthenticationPhase.register_with_email
    else if user_has_code s.registration_user
    then AuthenticationPhase.register_with_phone
    else if with_email s.login_credentials && s.is_waiting_for_login
    then AuthenticationPhase.login_with_email
    else if with_phone s.login_credentials && s.is_waiting_for_login
    then AuthenticationPhase.login_with_phone
    else if is_some s.registration_phone_number
    then AuthenticationPhase.request_phone_verification_code_for_registration
    else if is_some s.login_phone_number
    then AuthenticationPhase.request_phone_verification_code_for_login
    else if is_some s.registration_phone_credentials
    then AuthenticationPhase.verify_phone_for_registration
    else AuthenticationPhase.unauthenticated

unfoldable pub needs_credentials_to_login : Status → Bool
needs_credentials_to_login s = not (is_some s.cookie) && is_none s.login_credentials

-- `emailCredentials` of the credential provider: a new object.
unfoldable pub provided_email_credentials : Status → Option Credentials
provided_email_credentials s = elim s.login_credentials [
  | none ↦ none
  | some c ↦
      if credential_with_email c
      then some (email_credentials s.next_address c.email c.password)
      else none
]
