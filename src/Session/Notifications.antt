-- ===== src/Session/Notifications.antt =====
-- ZMUserSessionRegistrationNotification.m, ZMUserSessionAuthenticationNotification.m and the
-- notifications of ZMUserProfileUpdateStatus.m. A notification that is posted is a value; the
-- notification center that delivers it is the platform's.
use zmessaging_cocoa.Base.{Option, none, some}
use zmessaging_cocoa.Session.Codes.{
  RegistrationNotificationType, AuthenticationNotificationType, ProfileNotificationType,
}
use zmessaging_cocoa.Session.Errors.{Error}

pub record RegistrationNote : Type 0 where
  pub type : RegistrationNotificationType
  pub error : Option Error

pub record AuthenticationNote : Type 0 where
  pub type : AuthenticationNotificationType
  pub error : Option Error

pub record ProfileNote : Type 0 where
  pub type : ProfileNotificationType
  pub error : Option Error

pub notify_registration_did_fail : Error → RegistrationNote
notify_registration_did_fail e = record {
  type = RegistrationNotificationType.registration_did_fail;
  error = some e;
}

pub notify_phone_number_verification_did_fail : Error → RegistrationNote
notify_phone_number_verification_did_fail e = record {
  type = RegistrationNotificationType.phone_number_verification_did_fail;
  error = some e;
}

pub notify_phone_number_verification_code_request_did_fail : Error → RegistrationNote
notify_phone_number_verification_code_request_did_fail e = record {
  type = RegistrationNotificationType.phone_number_verification_code_request_did_fail;
  error = some e;
}

pub notify_phone_number_verification_code_request_did_succeed : RegistrationNote
notify_phone_number_verification_code_request_did_succeed = record {
  type = RegistrationNotificationType.phone_number_verification_code_request_did_succeed;
  error = none;
}

pub notify_email_verification_did_succeed : RegistrationNote
notify_email_verification_did_succeed = record {
  type = RegistrationNotificationType.email_verification_did_succeed;
  error = none;
}

pub notify_phone_number_verification_did_succeed : RegistrationNote
notify_phone_number_verification_did_succeed = record {
  type = RegistrationNotificationType.phone_number_verification_did_succeed;
  error = none;
}

pub notify_authentication_did_fail : Error → AuthenticationNote
notify_authentication_did_fail e = record {
  type = AuthenticationNotificationType.authentication_did_fail;
  error = some e;
}

pub notify_authentication_did_succeed : AuthenticationNote
notify_authentication_did_succeed = record {
  type = AuthenticationNotificationType.authentication_did_succeed;
  error = none;
}

pub notify_login_code_request_did_fail : Error → AuthenticationNote
notify_login_code_request_did_fail e = record {
  type = AuthenticationNotificationType.login_code_request_did_fail;
  error = some e;
}

pub notify_login_code_request_did_succeed : AuthenticationNote
notify_login_code_request_did_succeed = record {
  type = AuthenticationNotificationType.login_code_request_did_succeed;
  error = none;
}

pub profile_note : ProfileNotificationType → Option Error → ProfileNote
profile_note t e = record { type = t; error = e }
