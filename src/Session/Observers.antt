-- ===== src/Session/Observers.antt =====
-- The observers of ZMUserSession+Authentication.h and ZMUserSession+Registration.h, and how a
-- notification reaches them (ZMUserSession+Authentication.m, ZMUserSession+Registration.m). An
-- observer acts on states `S`; a method that it does not respond to is `none`. The list of clients
-- that goes with one error is left out.
use zmessaging_cocoa.Base.{Option, none, some}
use zmessaging_cocoa.Session.Codes.{RegistrationNotificationType, AuthenticationNotificationType}
use zmessaging_cocoa.Session.Errors.{Error}
use zmessaging_cocoa.Session.Notifications.{RegistrationNote, AuthenticationNote}

-- ZMAuthenticationObserver.
pub record AuthenticationObserver (S : Type 0) : Type 0 where
  pub login_code_request_did_fail : Option (Option Error → S → S)
  pub login_code_request_did_succeed : Option (S → S)
  pub authentication_did_fail : Option (Option Error → S → S)
  pub authentication_did_succeed : Option (S → S)

-- ZMRegistrationObserver.
pub record RegistrationObserver (S : Type 0) : Type 0 where
  pub registration_did_fail : Option (Option Error → S → S)
  pub phone_verification_code_request_did_fail : Option (Option Error → S → S)
  pub phone_verification_code_request_did_succeed : Option (S → S)
  pub phone_verification_did_succeed : Option (S → S)
  pub phone_verification_did_fail : Option (Option Error → S → S)
  pub email_verification_did_succeed : Option (S → S)
  pub email_verification_did_fail : Option (Option Error → S → S)

module _ {S : Type 0} where
  -- A message to a method that may be missing.
  abbrev plainly : Option (S → S) → S → S
  plainly none s = s
  plainly (some f) s = f s

  abbrev with_error : Option (Option Error → S → S) → Option Error → S → S
  with_error none e s = s
  with_error (some f) e s = f e s

  -- The block of `addAuthenticationObserver:`
  unfoldable pub observe_authentication : AuthenticationObserver S → AuthenticationNote → S → S
  observe_authentication o n s = elim n.type [
    | AuthenticationNotificationType.login_code_request_did_fail ↦
        with_error o.login_code_request_did_fail n.error s
    | AuthenticationNotificationType.authentication_did_succeed ↦
        plainly o.authentication_did_succeed s
    | AuthenticationNotificationType.authentication_did_fail ↦
        with_error o.authentication_did_fail n.error s
    | AuthenticationNotificationType.login_code_request_did_succeed ↦
        plainly o.login_code_request_did_succeed s
  ]

  -- The block of `addRegistrationObserver:`
  unfoldable pub observe_registration : RegistrationObserver S → RegistrationNote → S → S
  observe_registration o n s = elim n.type [
    | RegistrationNotificationType.email_verification_did_fail ↦
        with_error o.email_verification_did_fail n.error s
    | RegistrationNotificationType.email_verification_did_succeed ↦
        plainly o.email_verification_did_succeed s
    | RegistrationNotificationType.phone_number_verification_did_fail ↦
        with_error o.phone_verification_did_fail n.error s
    | RegistrationNotificationType.phone_number_verification_code_request_did_fail ↦
        with_error o.phone_verification_code_request_did_fail n.error s
    | RegistrationNotificationType.phone_number_verification_did_succeed ↦
        plainly o.phone_verification_did_succeed s
    | RegistrationNotificationType.registration_did_fail ↦
        with_error o.registration_did_fail n.error s
    | RegistrationNotificationType.phone_number_verification_code_request_did_succeed ↦
        plainly o.phone_verification_code_request_did_succeed s
  ]
