-- ===== src/Session/Authentication/Pending.antt =====
-- ZMAuthenticationStatus.m: one thing at a time is pending, and the way of a phone number that is
-- registered already.
use zmessaging_cocoa.Base.{
  ℕ, Bool, true, ◌&&◌, Option, none, some, List, [], ◌∷◌, is_some, ◌+◌, ◌≡◌, ◌≤◌, arith, ◌++◌,
}
use zmessaging_cocoa.States.World.{AuthenticationPhase}
use zmessaging_cocoa.Session.Codes.{UserSessionErrorCode, user_session_error_code_code}
use zmessaging_cocoa.Session.Errors.{Error, user_session_error}
use zmessaging_cocoa.Session.Credentials.{Credentials}
use zmessaging_cocoa.Session.Notifications.{notify_registration_did_fail}
use zmessaging_cocoa.Session.Authentication.{
  Note, Status, Call, set_registration_user, set_login_credentials, reset, current_phase,
}
use zmessaging_cocoa.Session.Authentication.Steps.{
  prepare_for_login, prepare_for_registration, prepare_for_phone_verification,
  did_complete_registration, did_fail_registration_with_email, may_be_cleared,
  did_fail_registration_code_request, did_timeout_login, did_fail_phone_login, did_fail_email_login,
  did_fail_pending, step, run,
}

abbrev count : {A : Type 0} → Option A → ℕ
count none = 0
count (some _) = 1

-- How many of the things a status can be waiting for are set.
abbrev pub pending : Status → ℕ
pending s =
    count s.registration_user
    + count s.login_credentials
    + count s.registration_phone_number
    + count s.login_phone_number
    + count s.registration_phone_credentials

-- The answer that an e-mail address is taken comes while a user registers.
abbrev pub orderly : Call → Status → Bool
orderly Call.did_fail_registration_with_duplicated_email s = is_some s.registration_user
orderly _ _ = true

module _ (domain : ℕ) (validate : ℕ → ℕ) where
  abbrev pub all_orderly : List Call → Status → Bool
  all_orderly [] s = true
  all_orderly (m ∷ ms) s = orderly m s && all_orderly ms (step domain validate m s)

  step-pending :
      (m : Call) (s : Status)
      → orderly m s ≡ true
      → pending s ≤ 1
      → pending (step domain validate m s) ≤ 1
  unfolding step prepare_for_login prepare_for_registration prepare_for_phone_verification
      did_complete_registration did_fail_registration_with_email may_be_cleared
      did_fail_registration_code_request did_timeout_login did_fail_phone_login did_fail_email_login
      did_fail_pending reset set_registration_user set_login_credentials current_phase
  step-pending (Call.set_authentication_cookie_data x) s g h = ground arith
  step-pending (Call.prepare_for_registration_of_user x) s g h = ground arith
  step-pending (Call.prepare_for_login_with_credentials x) s g h = ground arith
  step-pending Call.cancel_waiting_for_email_verification s g h = ground arith
  step-pending (Call.prepare_for_requesting_code_for_registration x) s g h = ground arith
  step-pending (Call.prepare_for_requesting_code_for_login x) s g h = ground arith
  step-pending (Call.prepare_for_registration_phone_verification x) s g h = ground arith
  step-pending Call.did_complete_registration_successfully s g h = ground arith
  step-pending Call.did_fail_registration_with_duplicated_email s g h = ground arith
  step-pending (Call.did_fail_registration_for_other_reasons x) s g h = ground arith
  step-pending Call.did_complete_request_for_phone_registration_code_successfully s g h =
      ground arith
  step-pending (Call.did_fail_request_for_phone_registration_code x) s g h = ground arith
  step-pending Call.did_complete_request_for_login_code_successfully s g h = ground arith
  step-pending (Call.did_fail_request_for_login_code x) s g h = ground arith
  step-pending Call.did_complete_phone_verification_successfully s g h = ground arith
  step-pending (Call.did_fail_phone_verification_for_registration x) s g h = ground arith
  step-pending Call.login_succeed s g h = ground arith
  step-pending (Call.did_fail_login_with_phone x) s g h = ground arith
  step-pending Call.did_fail_login_with_email_because_pending_validation s g h = ground arith
  step-pending (Call.did_fail_login_with_email x) s g h = ground arith
  step-pending (Call.did_timeout_login_for_credentials x) s g h = ground arith
  step-pending Call.credentials_may_be_cleared s g h = ground arith

  -- From a status that waits for at most one thing, of a user who registers, credentials to log in
  -- with, a phone number that needs a code (to register or to log in) and a phone number's
  -- credentials to verify, any run of messages leads to such a status, if the failure of an e-mail
  -- address that is taken is only reported while a user registers.
  pub run-pending :
      (ms : List Call) (s : Status)
      → all_orderly ms s ≡ true
      → pending s ≤ 1
      → pending (run domain validate ms s) ≤ 1
  unfolding run
  run-pending [] s o h = h
  run-pending (m ∷ ms) s o h =
      run-pending ms (step domain validate m s) (ground arith) (step-pending m s (ground arith) h)

-- The messages of a registration whose phone number belongs to an account already.
abbrev pub taken_phone_messages : ℕ → Error → Credentials → List Call
taken_phone_messages phone e c =
    Call.prepare_for_requesting_code_for_registration phone
    ∷ Call.did_fail_request_for_phone_registration_code e
    ∷ Call.prepare_for_registration_phone_verification c
    ∷ []

-- A phone number that is already registered, of a status without a cookie that waits for a login:
-- after the verification with credentials that have a phone number and no e-mail address, the user
-- is logged in with them instead of registered, and if that login fails, whether or not the
-- credentials were invalid, the error that is posted is that of the registration.
pub taken_phone :
    (domain : ℕ) (validate : ℕ → ℕ) (phone n : ℕ) (e : Error) (c : Credentials) (invalid : Bool)
    (s : Status)
    → s.cookie ≡ none
    → s.is_waiting_for_login ≡ true
    → c.email ≡ none
    → c.phone_number ≡ some n
    → e.code ≡ user_session_error_code_code UserSessionErrorCode.phone_number_is_already_registered
    → (current_phase (run domain validate (taken_phone_messages phone e c) s)
        ≡ AuthenticationPhase.login_with_phone)
      × ((run domain validate
            (taken_phone_messages phone e c ++ Call.did_fail_login_with_phone invalid ∷ [])
            s).sent
          ≡ Note.registration (
              notify_registration_did_fail
                (user_session_error domain UserSessionErrorCode.phone_number_is_already_registered))
            ∷ (reset (run domain validate (taken_phone_messages phone e c) s)).sent)
unfolding run step current_phase did_fail_registration_code_request reset set_registration_user
    prepare_for_phone_verification set_login_credentials did_fail_phone_login
taken_phone d v p n e c i s h w k l m = ground arith
