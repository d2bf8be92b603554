-- ===== src/Session/Authentication/Steps.antt =====
-- ZMAuthenticationStatus.m: the messages that change the status. Texts and addresses are numbers;
-- the phone number validator, which may rewrite a number, and the domain of the errors are arguments.
use zmessaging_cocoa.Base.{
  ℕ, Bool, true, false, ◌&&◌, Option, none, some, List, [], ◌∷◌, if◌then◌else◌, is_some, ◌==◌, ◌+◌,
}
use zmessaging_cocoa.States.World.{AuthenticationPhase}
use zmessaging_cocoa.Session.Codes.{UserSessionErrorCode, user_session_error_code_code}
use zmessaging_cocoa.Session.Errors.{Error, user_session_error}
use zmessaging_cocoa.Session.Credentials.{Credentials, email_credentials}
use zmessaging_cocoa.Session.Notifications.{
  notify_registration_did_fail, notify_email_verification_did_succeed,
  notify_phone_number_verification_did_succeed, notify_authentication_did_fail,
  notify_phone_number_verification_did_fail, notify_phone_number_verification_code_request_did_fail,
  notify_phone_number_verification_code_request_did_succeed, notify_login_code_request_did_fail,
  notify_login_code_request_did_succeed,
}
use zmessaging_cocoa.Session.Authentication.{
  RegistrationUser, Note, Status, Call, post, set_registration_user, set_login_credentials, reset,
  current_phase, same_credentials,
}

abbrev is_login : AuthenticationPhase → Bool
is_login AuthenticationPhase.login_with_email = true
is_login AuthenticationPhase.login_with_phone = true
is_login _ = false

abbrev is_register_with_email : AuthenticationPhase → Bool
is_register_with_email AuthenticationPhase.register_with_email = true
is_register_with_email _ = false

abbrev is_authenticated : AuthenticationPhase → Bool
is_authenticated AuthenticationPhase.authenticated = true
is_authenticated _ = false

unfoldable pub prepare_for_login : Credentials → Status → Status
unfolding reset set_login_credentials
prepare_for_login c s =
    let cleared = reset (record s { registered_on_this_device = false }) in
    let kept = record cleared {
      duplicate_registration_phone_number =
          s.duplicate_registration_phone_number && is_some c.phone_number;
    } in
    record (set_login_credentials (some c) kept) { is_waiting_for_login = true }

unfoldable pub prepare_for_registration : RegistrationUser → Status → Status
unfolding reset set_registration_user
prepare_for_registration u s =
    set_registration_user (some u) (reset (record s { cookie = none; is_waiting_for_login = true }))

-- A phone number that is registered already logs in instead.
unfoldable pub prepare_for_phone_verification : Credentials → Status → Status
unfolding reset set_login_credentials
prepare_for_phone_verification c s =
    let kept = record (reset s) {
      duplicate_registration_phone_number = s.duplicate_registration_phone_number;
    } in
    if s.duplicate_registration_phone_number
    then set_login_credentials (some c) kept
    else record kept { registration_phone_credentials = some c }

-- The credentials of the user who registers, at a new address.
abbrev user_email : Option RegistrationUser → Option ℕ
user_email none = none
user_email (some u) = u.email_address

abbrev user_password : Option RegistrationUser → Option ℕ
user_password none = none
user_password (some u) = u.password

unfoldable pub registering_credentials : Status → Credentials
registering_credentials s =
    email_credentials s.next_address (user_email s.registration_user)
      (user_password s.registration_user)

abbrev taking : Status → Status
taking s = record s { next_address = s.next_address + 1 }

unfoldable pub did_complete_registration : Status → Status
unfolding current_phase set_login_credentials set_registration_user
did_complete_registration s =
    let registered = record s { registered_on_this_device = true } in
    if is_register_with_email (current_phase registered)
    then post (Note.registration notify_email_verification_did_succeed) (
        set_registration_user none
          (set_login_credentials (some (registering_credentials s)) (taking registered)))
    else registered

unfoldable pub did_fail_registration_with_email : Status → Status
unfolding set_registration_user set_login_credentials
did_fail_registration_with_email s =
    let dup = record s { duplicate_registration_email = true } in
    let cleared = set_registration_user none (taking dup) in
    set_login_credentials (some (registering_credentials s)) cleared

abbrev waiting_done : Status → Status
waiting_done s = if s.is_waiting_for_login then record s { is_waiting_for_login = false } else s

unfoldable pub may_be_cleared : Status → Status
unfolding current_phase reset
may_be_cleared s = if is_authenticated (current_phase s) then reset s else s

module _ (domain : ℕ) where
  abbrev session_error : UserSessionErrorCode → Error
  session_error c = user_session_error domain c

  unfoldable pub did_fail_registration_code_request : Error → Status → Status
  unfolding reset
  did_fail_registration_code_request e s =
      if e.code
        == user_session_error_code_code UserSessionErrorCode.phone_number_is_already_registered
      then record s {
        duplicate_registration_phone_number = true;
        login_phone_number = s.registration_phone_number;
        registration_phone_number = none;
      }
      else post (Note.registration (notify_phone_number_verification_code_request_did_fail e))
          (reset s)

  unfoldable pub did_timeout_login : Option Credentials → Status → Status
  unfolding current_phase set_login_credentials
  did_timeout_login c s =
      if is_login (current_phase s) && same_credentials s.login_credentials c
      then post
          (Note.authentication
            (notify_authentication_did_fail (session_error UserSessionErrorCode.network_error)))
          (set_login_credentials none s)
      else s

  abbrev invalid_or_unknown : Bool → Error
  invalid_or_unknown invalid =
      if invalid
      then session_error UserSessionErrorCode.invalid_credentials
      else session_error UserSessionErrorCode.unkown_error

  unfoldable pub did_fail_phone_login : Bool → Status → Status
  unfolding reset
  did_fail_phone_login invalid s =
      if s.duplicate_registration_phone_number
      then post
          (Note.registration (
            notify_registration_did_fail
              (session_error UserSessionErrorCode.phone_number_is_already_registered)))
          (reset s)
      else post (Note.authentication (notify_authentication_did_fail (invalid_or_unknown invalid)))
          (reset s)

  unfoldable pub did_fail_email_login : Bool → Status → Status
  unfolding reset
  did_fail_email_login invalid s = reset (
      if s.duplicate_registration_email
      then post
          (Note.registration (
            notify_registration_did_fail
              (session_error UserSessionErrorCode.email_is_already_registered)))
          s
      else post (Note.authentication (notify_authentication_did_fail (invalid_or_unknown invalid)))
          s)

  unfoldable pub did_fail_pending : Status → Status
  did_fail_pending s =
      post
        (Note.authentication (
          notify_authentication_did_fail
            (session_error UserSessionErrorCode.account_is_pending_activation)))
        (record s { is_waiting_for_email_verification = true })

-- One message of the interface.
module _ (domain : ℕ) (validate : ℕ → ℕ) where
  unfoldable pub step : Call → Status → Status
  unfolding reset
  step (Call.set_authentication_cookie_data c) s = record s { cookie = c }
  step (Call.prepare_for_registration_of_user u) s = prepare_for_registration u s
  step (Call.prepare_for_login_with_credentials c) s = prepare_for_login c s
  step Call.cancel_waiting_for_email_verification s = reset s
  step (Call.prepare_for_requesting_code_for_registration p) s = record (reset s) {
    registration_phone_number = some (validate p);
  }
  step (Call.prepare_for_requesting_code_for_login p) s = record (reset s) {
    login_phone_number = some (validate p);
  }
  step (Call.prepare_for_registration_phone_verification c) s = prepare_for_phone_verification c s
  step Call.did_complete_registration_successfully s = did_complete_registration s
  step Call.did_fail_registration_with_duplicated_email s = did_fail_registration_with_email s
  step (Call.did_fail_registration_for_other_reasons e) s =
      post (Note.registration (notify_registration_did_fail e)) (reset s)
  step Call.did_complete_request_for_phone_registration_code_successfully s =
      post (Note.registration notify_phone_number_verification_code_request_did_succeed)
        (record s { registration_phone_number = none })
  step (Call.did_fail_request_for_phone_registration_code e) s =
      did_fail_registration_code_request domain e s
  step Call.did_complete_request_for_login_code_successfully s =
      record (post (Note.authentication notify_login_code_request_did_succeed) s) {
        login_phone_number = none;
      }
  step (Call.did_fail_request_for_login_code e) s =
      post (Note.authentication (notify_login_code_request_did_fail e))
        (record s { login_phone_number = none })
  step Call.did_complete_phone_verification_successfully s =
      post (Note.registration notify_phone_number_verification_did_succeed) (reset s)
  step (Call.did_fail_phone_verification_for_registration e) s =
      post (Note.registration (notify_phone_number_verification_did_fail e)) (reset s)
  step Call.login_succeed s = waiting_done s
  step (Call.did_fail_login_with_phone invalid) s = did_fail_phone_login domain invalid s
  step Call.did_fail_login_with_email_because_pending_validation s = did_fail_pending domain s
  step (Call.did_fail_login_with_email invalid) s = did_fail_email_login domain invalid s
  step (Call.did_timeout_login_for_credentials c) s = did_timeout_login domain c s
  step Call.credentials_may_be_cleared s = may_be_cleared s

  unfoldable pub run : List Call → Status → Status
  run [] s = s
  run (c ∷ cs) s = run cs (step c s)
