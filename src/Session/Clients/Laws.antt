-- ===== src/Session/Clients/Laws.antt =====
-- ZMClientRegistrationStatus.m: the phases after a failed registration and after a deletion.
use zmessaging_cocoa.Base.{ℕ, true, false, ◌&&◌, Option, none, is_some, List, [], ◌∷◌, ◌≡◌, arith}
use zmessaging_cocoa.States.World.{ClientRegistrationPhase}
use zmessaging_cocoa.Session.Codes.{UserSessionErrorCode, user_session_error_code_code}
use zmessaging_cocoa.Session.Errors.{Error, user_session_error}
use zmessaging_cocoa.Session.Notifications.{notify_authentication_did_fail}
use zmessaging_cocoa.Session.Authentication.{
  Status, provided_email_credentials, current_phase, reset, set_registration_user,
}
use zmessaging_cocoa.Session.Authentication.Steps.{may_be_cleared}
use zmessaging_cocoa.Session.Profile.{verified_credentials}
use zmessaging_cocoa.Session.Clients.{
  Registration, Notice, registration_phase, needs_to_register_client, email_credentials_of,
  did_fail_to_register_client, did_fetch_clients, did_delete_client,
  did_detect_current_client_deletion, prepare_for_client_registration, invalidate_self_client,
  invalidate_cookie_and_notify, needs_to_create_new_client, current_client_ready_to_use,
}

may_be_cleared-credentials :
    (s : Status) → is_some s.cookie ≡ true → (may_be_cleared s).login_credentials ≡ none
unfolding may_be_cleared current_phase reset set_registration_user
may_be_cleared-credentials s h = ground arith

may_be_cleared-cookie : (s : Status) → (may_be_cleared s).cookie ≡ s.cookie
unfolding may_be_cleared current_phase reset set_registration_user
may_be_cleared-cookie s = ground arith

no_credentials : (s : Status) → s.login_credentials ≡ none → provided_email_credentials s ≡ none
unfolding provided_email_credentials
no_credentials s h = ground arith

-- When the password was wrong, of a status with a cookie, a known self user and no credentials
-- from a profile update, the credentials are gone, the status waits for a login, and the error is
-- posted.
pub invalid_credentials :
    (e : Error) (r : Registration)
    → e.code ≡ user_session_error_code_code UserSessionErrorCode.invalid_credentials
    → is_some r.login.cookie ≡ true
    → is_some r.self_user ≡ true
    → verified_credentials r.profile ≡ none
    → let after = did_fail_to_register_client e r in
      (email_credentials_of after ≡ none)
      × (registration_phase after ≡ ClientRegistrationPhase.waiting_for_login)
      × (after.notices ≡ Notice.posts (notify_authentication_did_fail e) ∷ r.notices)
unfolding did_fail_to_register_client registration_phase email_credentials_of
invalid_credentials e r c k u v = ground (
  arith,
  may_be_cleared-credentials r.login k,
  may_be_cleared-cookie r.login,
  no_credentials (may_be_cleared r.login) (may_be_cleared-credentials r.login k),
)

module _ (domain : ℕ) (self_client : Option ℕ → List (Option ℕ) → Option (Option ℕ)) where
  -- When a client could not be registered because the user has too many, a status that was ready to
  -- register fetches the clients first and posts nothing; when they are there, it posts the error
  -- with them and waits for one to be deleted; and when one is deleted, it is ready to register
  -- again, if the self client need not be verified.
  pub too_many_clients :
      (e : Error) (ids : List ℕ) (r : Registration)
      → e.code ≡ user_session_error_code_code UserSessionErrorCode.can_not_register_more_clients
      → registration_phase r ≡ ClientRegistrationPhase.unregistered
      → r.needs_to_verify_self_client ≡ false
      → let failed = did_fail_to_register_client e r in
        let fetched = did_fetch_clients domain ids failed in
        (registration_phase failed ≡ ClientRegistrationPhase.fetching_clients)
        × (failed.notices ≡ Notice.new_requests ∷ r.notices)
        × (registration_phase fetched ≡ ClientRegistrationPhase.waiting_for_deletion)
        × (fetched.notices
            ≡ Notice.posts_with_clients
                (notify_authentication_did_fail
                  (user_session_error domain UserSessionErrorCode.can_not_register_more_clients))
                ids
              ∷ failed.notices)
        × (registration_phase (did_delete_client self_client fetched)
            ≡ ClientRegistrationPhase.unregistered)
  unfolding did_fail_to_register_client registration_phase email_credentials_of did_fetch_clients
      did_delete_client prepare_for_client_registration needs_to_register_client
      needs_to_create_new_client
  too_many_clients e ids r c p v = ground arith

  -- When the client was deleted elsewhere, whatever the status, it waits for a login, has to
  -- register the client again and knows no clients, its client is not ready to use, and credentials
  -- of a user who was logged in are gone.
  pub deleted_client :
      (r : Registration)
      → let after = did_detect_current_client_deletion domain self_client r in
        (registration_phase after ≡ ClientRegistrationPhase.waiting_for_login)
        × (needs_to_register_client after ≡ true)
        × (after.clients ≡ [])
        × (current_client_ready_to_use after ≡ false)
        × ((is_some r.login.cookie && is_some after.login.login_credentials) ≡ false)
  unfolding did_detect_current_client_deletion invalidate_cookie_and_notify invalidate_self_client
      registration_phase needs_to_register_client current_client_ready_to_use
  deleted_client r = ground (arith, may_be_cleared-credentials r.login)
