-- ===== src/Session/Authentication/Phases.antt =====
-- ZMAuthenticationStatus.m: what the messages do to the cookie, to what is pending and to the phase.
use zmessaging_cocoa.Base.{ℕ, Option, none, List, [], ◌∷◌, ◌≡◌, refl, ap, ◌∙◌, arith}
use zmessaging_cocoa.Session.Credentials.{Credentials}
use zmessaging_cocoa.Session.Authentication.{
  RegistrationUser, Status, Call, set_registration_user, set_login_credentials, reset,
}
use zmessaging_cocoa.Session.Authentication.Steps.{
  prepare_for_login, prepare_for_registration, prepare_for_phone_verification,
  did_complete_registration, did_fail_registration_with_email, may_be_cleared,
  did_fail_registration_code_request, did_timeout_login, did_fail_phone_login, did_fail_email_login,
  did_fail_pending, step, run,
}

-- The cookie that a message leaves.
abbrev pub cookie_after : Call → Option ℕ → Option ℕ
cookie_after (Call.set_authentication_cookie_data c) _ = c
cookie_after (Call.prepare_for_registration_of_user u) _ = none
cookie_after _ c = c

abbrev pub cookie_after_all : List Call → Option ℕ → Option ℕ
cookie_after_all [] c = c
cookie_after_all (m ∷ ms) c = cookie_after_all ms (cookie_after m c)

set_user-cookie :
    (u : Option RegistrationUser) (s : Status) → (set_registration_user u s).cookie ≡ s.cookie
unfolding set_registration_user
set_user-cookie u s = ground arith

set_login-cookie :
    (c : Option Credentials) (s : Status) → (set_login_credentials c s).cookie ≡ s.cookie
unfolding set_login_credentials
set_login-cookie c s = ground arith

reset-cookie : (s : Status) → (reset s).cookie ≡ s.cookie
unfolding reset
reset-cookie s = grind (arith, set_user-cookie)

module _ (domain : ℕ) (validate : ℕ → ℕ) where
  step-cookie :
      (m : Call) (s : Status) → (step domain validate m s).cookie ≡ cookie_after m s.cookie
  unfolding step prepare_for_login prepare_for_registration prepare_for_phone_verification
      did_complete_registration did_fail_registration_with_email may_be_cleared
      did_fail_registration_code_request did_timeout_login did_fail_phone_login did_fail_email_login
      did_fail_pending
  step-cookie (Call.set_authentication_cookie_data x) s = refl
  step-cookie (Call.prepare_for_registration_of_user x) s =
      grind (arith, set_user-cookie, reset-cookie)
  step-cookie (Call.prepare_for_login_with_credentials x) s =
      grind (arith, set_login-cookie, reset-cookie)
  step-cookie Call.cancel_waiting_for_email_verification s = grind (arith, reset-cookie)
  step-cookie (Call.prepare_for_requesting_code_for_registration x) s = grind (arith, reset-cookie)
  step-cookie (Call.prepare_for_requesting_code_for_login x) s = grind (arith, reset-cookie)
  step-cookie (Call.prepare_for_registration_phone_verification x) s =
      grind (arith, reset-cookie, set_login-cookie)
  step-cookie Call.did_complete_registration_successfully s =
      grind (arith, set_user-cookie, set_login-cookie)
  step-cookie Call.did_fail_registration_with_duplicated_email s =
      grind (arith, set_user-cookie, set_login-cookie)
  step-cookie (Call.did_fail_registration_for_other_reasons x) s = grind (arith, reset-cookie)
  step-cookie Call.did_complete_request_for_phone_registration_code_successfully s = refl
  step-cookie (Call.did_fail_request_for_phone_registration_code x) s = grind (arith, reset-cookie)
  step-cookie Call.did_complete_request_for_login_code_successfully s = refl
  step-cookie (Call.did_fail_request_for_login_code x) s = refl
  step-cookie Call.did_complete_phone_verification_successfully s = grind (arith, reset-cookie)
  step-cookie (Call.did_fail_phone_verification_for_registration x) s = grind (arith, reset-cookie)
  step-cookie Call.login_succeed s = ground arith
  step-cookie (Call.did_fail_login_with_phone x) s = grind (arith, reset-cookie)
  step-cookie Call.did_fail_login_with_email_because_pending_validation s = refl
  step-cookie (Call.did_fail_login_with_email x) s = grind (arith, reset-cookie)
  step-cookie (Call.did_timeout_login_for_credentials x) s = grind (arith, set_login-cookie)
  step-cookie Call.credentials_may_be_cleared s = grind (arith, reset-cookie)

  -- Whatever messages the status gets, the cookie is the one last set, and none after a registration
  -- that was prepared since; no other message changes it.
  pub run-cookie :
      (ms : List Call) (s : Status)
      → (run domain validate ms s).cookie ≡ cookie_after_all ms s.cookie
  unfolding run
  run-cookie [] s = refl
  run-cookie (m ∷ ms) s =
      run-cookie ms (step domain validate m s) ∙ ap (cookie_after_all ms) (step-cookie m s)
