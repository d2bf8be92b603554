-- ===== src/Session/Errors.antt =====
-- NSError+ZMUserSession.m and NSError+ZMUserSessionInternal.h: errors of a user session, and how the
-- backend's responses become errors. A text is a number; `domain` is that of ZMUserSessionErrorDomain.
use zmessaging_cocoa.Base.{ℕ, Bool, ◌&&◌, ◌||◌, Option, none, some, ◌==◌, if◌then◌else◌}
use zmessaging_cocoa.Session.Codes.{UserSessionErrorCode, user_session_error_code_code}

pub record Error : Type 0 where
  pub domain : ℕ
  pub code : ℕ

-- The labels of the backend's payloads.
pub data Label : Type 0 where
  pending_login unauthorized invalid_code invalid_phone bad_request : Label
  invalid_email key_exists invalid_invitation_code : Label

-- What is read of a transport response; `has_label` is its payload's comparison with a label.
pub record Response : Type 0 where
  pub http_status : ℕ
  pub has_label : Label → Bool

module _ (domain : ℕ) where
  -- `userSessionErrorCode`, as a number: the code is cast.
  unfoldable pub user_session_error_code : Error → ℕ
  user_session_error_code e = if e.domain == domain then e.code else 0

  unfoldable pub user_session_error : UserSessionErrorCode → Error
  user_session_error c = record { domain = domain; code = user_session_error_code_code c }

  -- The error with the code if the test holds, or nil.
  abbrev error_if : Bool → UserSessionErrorCode → Option Error
  error_if b c = if b then some (user_session_error c) else none

  pub pending_login_error : Response → Option Error
  unfolding user_session_error
  pending_login_error r =
      error_if (r.http_status == 403 && r.has_label Label.pending_login)
        UserSessionErrorCode.code_request_is_already_pending

  pub unauthorized_error : Response → Option Error
  unauthorized_error r =
      error_if (r.http_status == 403 && r.has_label Label.unauthorized)
        UserSessionErrorCode.invalid_phone_number

  pub invalid_phone_verification_code_error : Response → Option Error
  invalid_phone_verification_code_error r =
      error_if (r.http_status == 404 && r.has_label Label.invalid_code)
        UserSessionErrorCode.invalid_phone_number_verification_code

  pub invalid_phone_number_error : Response → Option Error
  invalid_phone_number_error r =
      error_if
        (r.http_status == 400 && (r.has_label Label.invalid_phone || r.has_label Label.bad_request))
        UserSessionErrorCode.invalid_phone_number

  pub phone_number_is_already_registered_error : Response → Option Error
  phone_number_is_already_registered_error r =
      error_if (r.http_status == 409) UserSessionErrorCode.phone_number_is_already_registered

  pub invalid_email_error : Response → Option Error
  invalid_email_error r =
      error_if (r.http_status == 400 && r.has_label Label.invalid_email)
        UserSessionErrorCode.invalid_email

  pub email_is_already_registered_error : Response → Option Error
  email_is_already_registered_error r =
      error_if (r.http_status == 409 && r.has_label Label.key_exists)
        UserSessionErrorCode.email_is_already_registered

  pub invalid_invitation_code_error : Response → Option Error
  invalid_invitation_code_error r =
      error_if (r.http_status == 400 && r.has_label Label.invalid_invitation_code)
        UserSessionErrorCode.invalid_invitation_code
