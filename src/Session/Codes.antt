-- ===== src/Session/Codes.antt =====
-- The numbered types of a user session's interfaces: Source/Public/NSError+ZMUserSession.h, and the
-- notification types of Source/UserSession/.
use zmessaging_cocoa.Base.{ℕ, List, [], ◌∷◌, some, ◌≡◌, refl, decode, Coded}

pub data UserSessionErrorCode : Type 0 where
  no_error unkown_error needs_credentials invalid_credentials : UserSessionErrorCode
  account_is_pending_activation network_error email_is_already_registered : UserSessionErrorCode
  phone_number_is_already_registered invalid_phone_number invalid_email : UserSessionErrorCode
  invalid_phone_number_verification_code : UserSessionErrorCode
  registration_did_fail_with_unknown_error : UserSessionErrorCode
  code_request_is_already_pending needs_password_to_register_client : UserSessionErrorCode
  needs_to_register_email_to_register_client : UserSessionErrorCode
  can_not_register_more_clients invalid_invitation_code account_deleted : UserSessionErrorCode
  client_deleted_remotely : UserSessionErrorCode

abbrev pub user_session_error_code_code : UserSessionErrorCode → ℕ
user_session_error_code_code UserSessionErrorCode.no_error = 0
user_session_error_code_code UserSessionErrorCode.unkown_error = 1
user_session_error_code_code UserSessionErrorCode.needs_credentials = 2
user_session_error_code_code UserSessionErrorCode.invalid_credentials = 3
user_session_error_code_code UserSessionErrorCode.account_is_pending_activation = 4
user_session_error_code_code UserSessionErrorCode.network_error = 5
user_session_error_code_code UserSessionErrorCode.email_is_already_registered = 6
user_session_error_code_code UserSessionErrorCode.phone_number_is_already_registered = 7
user_session_error_code_code UserSessionErrorCode.invalid_phone_number = 8
user_session_error_code_code UserSessionErrorCode.invalid_email = 9
user_session_error_code_code UserSessionErrorCode.invalid_phone_number_verification_code = 10
user_session_error_code_code UserSessionErrorCode.registration_did_fail_with_unknown_error = 11
user_session_error_code_code UserSessionErrorCode.code_request_is_already_pending = 12
user_session_error_code_code UserSessionErrorCode.needs_password_to_register_client = 13
user_session_error_code_code UserSessionErrorCode.needs_to_register_email_to_register_client = 14
user_session_error_code_code UserSessionErrorCode.can_not_register_more_clients = 15
user_session_error_code_code UserSessionErrorCode.invalid_invitation_code = 16
user_session_error_code_code UserSessionErrorCode.account_deleted = 17
user_session_error_code_code UserSessionErrorCode.client_deleted_remotely = 18

abbrev pub user_session_error_code_values : List UserSessionErrorCode
user_session_error_code_values =
    UserSessionErrorCode.no_error ∷ UserSessionErrorCode.unkown_error
    ∷ UserSessionErrorCode.needs_credentials ∷ UserSessionErrorCode.invalid_credentials
    ∷ UserSessionErrorCode.account_is_pending_activation ∷ UserSessionErrorCode.network_error
    ∷ UserSessionErrorCode.email_is_already_registered
    ∷ UserSessionErrorCode.phone_number_is_already_registered
    ∷ UserSessionErrorCode.invalid_phone_number ∷ UserSessionErrorCode.invalid_email
    ∷ UserSessionErrorCode.invalid_phone_number_verification_code
    ∷ UserSessionErrorCode.registration_did_fail_with_unknown_error
    ∷ UserSessionErrorCode.code_request_is_already_pending
    ∷ UserSessionErrorCode.needs_password_to_register_client
    ∷ UserSessionErrorCode.needs_to_register_email_to_register_client
    ∷ UserSessionErrorCode.can_not_register_more_clients
    ∷ UserSessionErrorCode.invalid_invitation_code ∷ UserSessionErrorCode.account_deleted
    ∷ UserSessionErrorCode.client_deleted_remotely ∷ []

pub user_session_error_code_found :
    (a : UserSessionErrorCode)
    → decode user_session_error_code_code user_session_error_code_values
        (user_session_error_code_code a)
      ≡ some a
unfolding decode
user_session_error_code_found UserSessionErrorCode.no_error = refl
user_session_error_code_found _ = refl

instance pub user_session_error_code_coded : Coded UserSessionErrorCode
user_session_error_code_coded = record {
  code = user_session_error_code_code;
  values = user_session_error_code_values;
  found = user_session_error_code_found;
}

pub data RegistrationNotificationType : Type 0 where
  email_verification_did_succeed email_verification_did_fail : RegistrationNotificationType
  phone_number_verification_did_succeed : RegistrationNotificationType
  phone_number_verification_did_fail : RegistrationNotificationType
  phone_number_verification_code_request_did_fail : RegistrationNotificationType
  phone_number_verification_code_request_did_succeed : RegistrationNotificationType
  registration_did_fail : RegistrationNotificationType

abbrev pub registration_notification_type_code : RegistrationNotificationType → ℕ
registration_notification_type_code RegistrationNotificationType.email_verification_did_succeed = 0
registration_notification_type_code RegistrationNotificationType.email_verification_did_fail = 1
registration_notification_type_code
      RegistrationNotificationType.phone_number_verification_did_succeed =
    2
registration_notification_type_code
      RegistrationNotificationType.phone_number_verification_did_fail =
    3
registration_notification_type_code
      RegistrationNotificationType.phone_number_verification_code_request_did_fail =
    4
registration_notification_type_code
      RegistrationNotificationType.phone_number_verification_code_request_did_succeed =
    5
registration_notification_type_code RegistrationNotificationType.registration_did_fail = 6

abbrev pub registration_notification_type_values : List RegistrationNotificationType
registration_notification_type_values =
    RegistrationNotificationType.email_verification_did_succeed
    ∷ RegistrationNotificationType.email_verification_did_fail
    ∷ RegistrationNotificationType.phone_number_verification_did_succeed
    ∷ RegistrationNotificationType.phone_number_verification_did_fail
    ∷ RegistrationNotificationType.phone_number_verification_code_request_did_fail
    ∷ RegistrationNotificationType.phone_number_verification_code_request_did_succeed
    ∷ RegistrationNotificationType.registration_did_fail ∷ []

pub registration_notification_type_found :
    (a : RegistrationNotificationType)
    → decode registration_notification_type_code registration_notification_type_values
        (registration_notification_type_code a)
      ≡ some a
unfolding decode
registration_notification_type_found RegistrationNotificationType.email_verification_did_succeed =
    refl
registration_notification_type_found _ = refl

instance pub registration_notification_type_coded : Coded RegistrationNotificationType
registration_notification_type_coded = record {
  code = registration_notification_type_code;
  values = registration_notification_type_values;
  found = registration_notification_type_found;
}

pub data AuthenticationNotificationType : Type 0 where
  authentication_did_fail authentication_did_succeed : AuthenticationNotificationType
  login_code_request_did_fail login_code_request_did_succeed : AuthenticationNotificationType

abbrev pub authentication_notification_type_code : AuthenticationNotificationType → ℕ
authentication_notification_type_code AuthenticationNotificationType.authentication_did_fail = 0
authentication_notification_type_code AuthenticationNotificationType.authentication_did_succeed = 1
authentication_notification_type_code AuthenticationNotificationType.login_code_request_did_fail = 2
authentication_notification_type_code
      AuthenticationNotificationType.login_code_request_did_succeed =
    3

abbrev pub authentication_notification_type_values : List AuthenticationNotificationType
authentication_notification_type_values =
    AuthenticationNotificationType.authentication_did_fail
    ∷ AuthenticationNotificationType.authentication_did_succeed
    ∷ AuthenticationNotificationType.login_code_request_did_fail
    ∷ AuthenticationNotificationType.login_code_request_did_succeed ∷ []

pub authentication_notification_type_found :
    (a : AuthenticationNotificationType)
    → decode authentication_notification_type_code authentication_notification_type_values
        (authentication_notification_type_code a)
      ≡ some a
unfolding decode
authentication_notification_type_found AuthenticationNotificationType.authentication_did_fail = refl
authentication_notification_type_found _ = refl

instance pub authentication_notification_type_coded : Coded AuthenticationNotificationType
authentication_notification_type_coded = record {
  code = authentication_notification_type_code;
  values = authentication_notification_type_values;
  found = authentication_notification_type_found;
}

pub data ProfileNotificationType : Type 0 where
  password_update_did_fail email_update_did_fail : ProfileNotificationType
  email_did_send_verification : ProfileNotificationType
  phone_number_verification_code_request_did_fail : ProfileNotificationType
  phone_number_verification_code_request_did_succeed : ProfileNotificationType
  phone_number_verification_did_fail : ProfileNotificationType

abbrev pub profile_notification_type_code : ProfileNotificationType → ℕ
profile_notification_type_code ProfileNotificationType.password_update_did_fail = 0
profile_notification_type_code ProfileNotificationType.email_update_did_fail = 1
profile_notification_type_code ProfileNotificationType.email_did_send_verification = 2
profile_notification_type_code
      ProfileNotificationType.phone_number_verification_code_request_did_fail =
    3
profile_notification_type_code
      ProfileNotificationType.phone_number_verification_code_request_did_succeed =
    4
profile_notification_type_code ProfileNotificationType.phone_number_verification_did_fail = 5

abbrev pub profile_notification_type_values : List ProfileNotificationType
profile_notification_type_values =
    ProfileNotificationType.password_update_did_fail ∷ ProfileNotificationType.email_update_did_fail
    ∷ ProfileNotificationType.email_did_send_verification
    ∷ ProfileNotificationType.phone_number_verification_code_request_did_fail
    ∷ ProfileNotificationType.phone_number_verification_code_request_did_succeed
    ∷ ProfileNotificationType.phone_number_verification_did_fail ∷ []

pub profile_notification_type_found :
    (a : ProfileNotificationType)
    → decode profile_notification_type_code profile_notification_type_values
        (profile_notification_type_code a)
      ≡ some a
unfolding decode
profile_notification_type_found ProfileNotificationType.password_update_did_fail = refl
profile_notification_type_found _ = refl

instance pub profile_notification_type_coded : Coded ProfileNotificationType
profile_notification_type_coded = record {
  code = profile_notification_type_code;
  values = profile_notification_type_values;
  found = profile_notification_type_found;
}

pub data ProfilePhase : Type 0 where
  idle request_phone_verification_code change_password change_email change_phone : ProfilePhase

abbrev pub profile_phase_code : ProfilePhase → ℕ
profile_phase_code ProfilePhase.idle = 0
profile_phase_code ProfilePhase.request_phone_verification_code = 1
profile_phase_code ProfilePhase.change_password = 2
profile_phase_code ProfilePhase.change_email = 3
profile_phase_code ProfilePhase.change_phone = 4

abbrev pub profile_phase_values : List ProfilePhase
profile_phase_values =
    ProfilePhase.idle ∷ ProfilePhase.request_phone_verification_code ∷ ProfilePhase.change_password
    ∷ ProfilePhase.change_email ∷ ProfilePhase.change_phone ∷ []

pub profile_phase_found :
    (a : ProfilePhase)
    → decode profile_phase_code profile_phase_values (profile_phase_code a) ≡ some a
unfolding decode
profile_phase_found ProfilePhase.idle = refl
profile_phase_found _ = refl

instance pub profile_phase_coded : Coded ProfilePhase
profile_phase_coded = record {
  code = profile_phase_code;
  values = profile_phase_values;
  found = profile_phase_found;
}
