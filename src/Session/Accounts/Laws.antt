-- ===== src/Session/Accounts/Laws.antt =====
-- ZMUserSession+Authentication.m and ZMUserSession+Registration.m: what the calls lead to.
use zmessaging_cocoa.Base.{
  ℕ, suc, true, false, ◌||◌, Option, none, some, is_some, List, ◌∷◌, if◌then◌else◌, ◌≡◌, arith,
}
use zmessaging_cocoa.States.World.{AuthenticationPhase}
use zmessaging_cocoa.Session.Codes.{UserSessionErrorCode}
use zmessaging_cocoa.Session.Errors.{user_session_error}
use zmessaging_cocoa.Session.Credentials.{Credentials}
use zmessaging_cocoa.Session.Notifications.{
  notify_authentication_did_fail, notify_registration_did_fail,
}
use zmessaging_cocoa.Session.Authentication.{
  Status, RegistrationUser, Note, current_phase, is_logged_in, reset, set_registration_user,
  set_login_credentials,
}
use zmessaging_cocoa.Session.Authentication.Steps.{
  step, prepare_for_login, prepare_for_registration,
}
use zmessaging_cocoa.Session.Clients.{Registration, prepare_for_client_registration}
use zmessaging_cocoa.Session.Accounts.{
  Accounts, Validators, login_with_credentials, register_self_user, credentials_missing,
  session_is_logged_in, reregister_push_tokens,
}

prepare_for_login-current_phase :
    (c : Credentials) (s : Status)
    → s.cookie ≡ none
    → (is_some c.email || is_some c.phone_number) ≡ true
    → current_phase (prepare_for_login c s) ≡ (
        if is_some c.email
        then AuthenticationPhase.login_with_email
        else AuthenticationPhase.login_with_phone)
unfolding current_phase prepare_for_login reset set_registration_user set_login_credentials
prepare_for_login-current_phase c s h k = ground arith

prepare-login :
    (self_client : Option ℕ → List (Option ℕ) → Option (Option ℕ)) (r : Registration)
    → (prepare_for_client_registration self_client r).login ≡ r.login
unfolding prepare_for_client_registration
prepare-login self_client r = ground arith

module _ (domain : ℕ) (v : Validators)
    (self_client : Option ℕ → List (Option ℕ) → Option (Option ℕ)) where
  login_with_credentials-login :
      (c : Credentials) (a : Accounts)
      → a.clients.login.cookie ≡ none
      → (login_with_credentials domain v self_client c a).clients.login ≡ (
          if credentials_missing domain v c
          then a.clients.login
          else prepare_for_login c a.clients.login)
  unfolding login_with_credentials reregister_push_tokens session_is_logged_in is_logged_in step
  login_with_credentials-login c a h = ground (
    arith,
    prepare-login self_client (record (a.clients) { login = prepare_for_login c a.clients.login }),
  )

  some_given :
      (c : Credentials)
      → credentials_missing domain v c ≡ false
      → (is_some c.email || is_some c.phone_number) ≡ true
  some_given c h = ground arith

  -- Logging in without a cookie: credentials of which a part is missing or empty leave the status
  -- as it is and post that credentials are needed; any others lead to the phase of a login by
  -- e-mail if they have an address and else by phone, and post nothing. New requests are announced
  -- in any case.
  pub login_leads_on :
      (c : Credentials) (a : Accounts)
      → a.clients.login.cookie ≡ none
      → let after = login_with_credentials domain v self_client c a in
        (after.posted ≡ (
          if credentials_missing domain v c
          then Note.authentication (
              notify_authentication_did_fail
                (user_session_error domain UserSessionErrorCode.needs_credentials))
            ∷ a.posted
          else a.posted))
        × (current_phase after.clients.login ≡ (
            if credentials_missing domain v c
            then current_phase a.clients.login
            else if is_some c.email
            then AuthenticationPhase.login_with_email
            else AuthenticationPhase.login_with_phone))
        × (after.wakes ≡ suc a.wakes)
  unfolding login_with_credentials reregister_push_tokens session_is_logged_in is_logged_in step
  login_leads_on c a h = ground (
    arith,
    login_with_credentials-login c a h,
    some_given c,
    prepare_for_login-current_phase c a.clients.login h,
  )

-- A registration with a valid phone number, no invitation code, no e-mail address and a code that is
-- not valid posts that credentials are needed, and all the same updates the self user, saves it, and
-- leads to the phase of a registration by phone with a new request announced.
pub invalid_code_registers :
    (domain : ℕ) (v : Validators) (u : RegistrationUser) (p q code : ℕ) (a : Accounts)
    → u.phone_number ≡ some p
    → v.validate_phone p ≡ some q
    → u.invitation_code ≡ none
    → u.email_address ≡ none
    → u.phone_verification_code ≡ some code
    → v.code_is_valid (some code) ≡ false
    → let after = register_self_user domain v u a in
      (after.posted
        ≡ Note.registration (
            notify_registration_did_fail
              (user_session_error domain UserSessionErrorCode.needs_credentials))
          ∷ a.posted)
      × (current_phase after.clients.login ≡ AuthenticationPhase.register_with_phone)
      × (after.self_user_from ≡ some u)
      × (after.saves ≡ suc a.saves)
      × (after.wakes ≡ suc a.wakes)
unfolding register_self_user step prepare_for_registration current_phase reset set_registration_user
invalid_code_registers domain v u p q code a e f g h i j = ground arith
