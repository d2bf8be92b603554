-- ===== src/Session/Clients.antt =====
-- ZMClientRegistrationStatus.m: the registration of this device as a client of the user. The two
-- credential providers are the authentication status, `login`, whose cookie this status shares, and
-- the profile update, `profile`. A client is its remote identifier, which may be missing; which of
-- them is the self client, `self_client`, is the data model library's. What is posted or asked of
-- others is recorded, newest first.
pub mod Laws
use zmessaging_cocoa.Base.{
  ℕ, Bool, true, false, not, ◌&&◌, ◌||◌, Option, none, some, is_some, is_none, List, [], ◌∷◌, ◌++◌,
  if◌then◌else◌, ◌==◌, same?,
}
use zmessaging_cocoa.States.World.{ClientRegistrationPhase}
use zmessaging_cocoa.Session.Codes.{UserSessionErrorCode, user_session_error_code_code}
use zmessaging_cocoa.Session.Errors.{Error, user_session_error}
use zmessaging_cocoa.Session.Credentials.{Credentials}
use zmessaging_cocoa.Session.Notifications.{
  AuthenticationNote, notify_authentication_did_fail, notify_authentication_did_succeed,
}
use zmessaging_cocoa.Session.Authentication.{Status, provided_email_credentials}
use zmessaging_cocoa.Session.Authentication.Steps.{may_be_cleared}
use zmessaging_cocoa.Session.Profile.{Update, verified_credentials, reset_email_credentials}

-- ZMCredentialProvider, over its states `S`.
pub record CredentialProvider (S : Type 0) : Type 0 where
  pub credentials_may_be_cleared : S → S
  pub email_credentials : S → Option Credentials

abbrev pub login_provider : CredentialProvider Status
login_provider = record {
  credentials_may_be_cleared = may_be_cleared;
  email_credentials = provided_email_credentials;
}

abbrev pub profile_provider : CredentialProvider Update
profile_provider = record {
  credentials_may_be_cleared = reset_email_credentials;
  email_credentials = verified_credentials;
}

pub data Notice : Type 0 where
  posts : AuthenticationNote → Notice
  posts_with_clients : AuthenticationNote → List ℕ → Notice
  registers_client : ℕ → Notice
  misses_clients : List (Option ℕ) → Notice
  new_requests new_crypt_box : Notice

pub record Registration : Type 0 where
  pub is_waiting_for_clients_to_be_deleted : Bool
  pub is_waiting_for_user_clients : Bool
  pub is_waiting_for_email_verification : Bool
  pub needs_to_check_credentials : Bool
  pub needs_to_verify_self_client : Bool
  pub login : Status
  pub profile : Update
  pub client_id : Option ℕ  -- persisted; none also for an empty text
  pub self_user : Option ℕ
  pub self_user_email : Option ℕ
  pub clients : List (Option ℕ)
  pub notices : List Notice

abbrev pub with_code : UserSessionErrorCode → Error → Bool
with_code c e = e.code == user_session_error_code_code c

unfoldable pub needs_to_register_client : Registration → Bool
needs_to_register_client r = is_none r.client_id

-- `emailCredentials`: of the profile update, or of the login.
unfoldable pub email_credentials_of : Registration → Option Credentials
email_credentials_of r = elim (profile_provider.email_credentials r.profile) [
  | none ↦ login_provider.email_credentials r.login
  | some c ↦ some c
]

unfoldable pub has_email_credentials : Registration → Bool
has_email_credentials r = elim (email_credentials_of r) [
  | none ↦ false
  | some c ↦ is_some c.email && is_some c.password
]

unfoldable pub registration_phase : Registration → ClientRegistrationPhase
registration_phase r =
    if is_none r.login.cookie
    then ClientRegistrationPhase.waiting_for_login
    else if is_none r.self_user
    then ClientRegistrationPhase.waiting_for_self_user
    else if r.needs_to_check_credentials && is_none (email_credentials_of r)
    then ClientRegistrationPhase.waiting_for_login
    else if r.is_waiting_for_user_clients
    then ClientRegistrationPhase.fetching_clients
    else if r.is_waiting_for_email_verification
    then ClientRegistrationPhase.waiting_for_email_verification
    else if not (needs_to_register_client r)
    then ClientRegistrationPhase.registered
    else if r.is_waiting_for_clients_to_be_deleted
    then ClientRegistrationPhase.waiting_for_deletion
    else ClientRegistrationPhase.unregistered

abbrev is_registered : ClientRegistrationPhase → Bool
is_registered ClientRegistrationPhase.registered = true
is_registered _ = false

unfoldable pub current_client_ready_to_use : Registration → Bool
current_client_ready_to_use r = is_registered (registration_phase r)

abbrev tell : Notice → Registration → Registration
tell n r = record r { notices = n ∷ r.notices }

abbrev clear_login : Registration → Registration
clear_login r = record r { login = login_provider.credentials_may_be_cleared r.login }

abbrev any_unregistered : List (Option ℕ) → Bool
any_unregistered [] = false
any_unregistered (none ∷ cs) = true
any_unregistered (some c ∷ cs) = any_unregistered cs

unfoldable pub others : ℕ → List (Option ℕ) → List (Option ℕ)
others n [] = []
others n (c ∷ cs) = let rest = others n cs in if same? c (some n) then rest else c ∷ rest

unfoldable pub forget : Option ℕ → List (Option ℕ) → List (Option ℕ)
forget id [] = []
forget id (c ∷ cs) = (if same? c id then none else c) ∷ forget id cs

abbrev misses : List (Option ℕ) → Registration → Registration
misses [] r = r
misses (c ∷ cs) r = tell (Notice.misses_clients (c ∷ cs)) r

unfoldable pub did_register_client : ℕ → Registration → Registration
did_register_client n r =
    let missed = misses (others n r.clients) (record r { client_id = some n }) in
    let told =
      tell (Notice.registers_client n)
        (tell (Notice.posts notify_authentication_did_succeed) missed) in
    let cleared = clear_login told in
    record cleared {
      profile = profile_provider.credentials_may_be_cleared cleared.profile;
      needs_to_check_credentials = false;
    }

-- The three errors after which the user stays logged in with the credentials.
abbrev keeps_credentials : Error → Bool
keeps_credentials e =
    with_code UserSessionErrorCode.needs_password_to_register_client e
    || with_code UserSessionErrorCode.needs_to_register_email_to_register_client e
    || with_code UserSessionErrorCode.can_not_register_more_clients e

unfoldable pub did_fail_to_register_client : Error → Registration → Registration
did_fail_to_register_client e r =
    let cleared = if keeps_credentials e then r else clear_login r in
    let flagged = record cleared {
      needs_to_check_credentials =
          with_code UserSessionErrorCode.needs_password_to_register_client e
          || with_code UserSessionErrorCode.invalid_credentials e
          || cleared.needs_to_check_credentials;
      is_waiting_for_email_verification =
          with_code UserSessionErrorCode.needs_to_register_email_to_register_client e
          || cleared.is_waiting_for_email_verification;
    } in
    if with_code UserSessionErrorCode.can_not_register_more_clients e
    then tell Notice.new_requests (record flagged { is_waiting_for_user_clients = true })
    else tell (Notice.posts (notify_authentication_did_fail e)) flagged

module _ (self_client : Option ℕ → List (Option ℕ) → Option (Option ℕ)) where
  unfoldable pub needs_to_create_new_client : Registration → Bool
  needs_to_create_new_client r =
      not (is_some (self_client r.client_id r.clients)) && not (any_unregistered r.clients)

  unfoldable pub prepare_for_client_registration : Registration → Registration
  prepare_for_client_registration r =
      if not (needs_to_register_client r) || is_none r.self_user
      then r
      else if needs_to_create_new_client r
      then record r { clients = r.clients ++ none ∷ [] }
      else tell Notice.new_requests r

  unfoldable pub did_fetch_self_user : Registration → Registration
  did_fetch_self_user r =
      let verified = record r {
        is_waiting_for_email_verification =
            r.is_waiting_for_email_verification && is_none r.self_user_email;
      } in
      let prepared = prepare_for_client_registration verified in
      let succeeded = tell (Notice.posts notify_authentication_did_succeed) verified in
      if needs_to_register_client r
      then prepared
      else if r.needs_to_verify_self_client
      then succeeded
      else clear_login succeeded

  unfoldable pub did_delete_client : Registration → Registration
  did_delete_client r =
      if r.is_waiting_for_clients_to_be_deleted
      then prepare_for_client_registration
          (record r { is_waiting_for_clients_to_be_deleted = false })
      else r

  -- The self client's identifier and the persisted one go.
  unfoldable pub invalidate_self_client : Registration → Registration
  invalidate_self_client r = elim (self_client r.client_id r.clients) [
    | none ↦ record r { client_id = none }
    | some id ↦ record r { client_id = none; clients = forget id r.clients }
  ]

module _ (domain : ℕ) where
  abbrev session_error : UserSessionErrorCode → Error
  session_error c = user_session_error domain c

  unfoldable pub invalidate_cookie_and_notify : Registration → Registration
  invalidate_cookie_and_notify r =
      let cleared = clear_login r in
      tell
        (Notice.posts (
          notify_authentication_did_fail
            (session_error UserSessionErrorCode.client_deleted_remotely)))
        (record cleared { login = record (cleared.login) { cookie = none } })

  unfoldable pub did_fetch_clients : List ℕ → Registration → Registration
  did_fetch_clients ids r =
      let verified =
        record (clear_login (tell (Notice.posts notify_authentication_did_succeed) r)) {
          needs_to_verify_self_client = false;
        } in
      let first = if r.needs_to_verify_self_client then verified else r in
      let told =
        tell
          (Notice.posts_with_clients
            (notify_authentication_did_fail
              (session_error UserSessionErrorCode.can_not_register_more_clients))
            ids)
          first in
      if r.is_waiting_for_user_clients
      then record told {
        is_waiting_for_user_clients = false;
        is_waiting_for_clients_to_be_deleted = true;
      }
      else first

  module _ (self_client : Option ℕ → List (Option ℕ) → Option (Option ℕ)) where
    -- `invalid` says whether the error is that the self client is invalid.
    unfoldable pub failed_fetching_clients : Bool → Registration → Registration
    failed_fetching_clients invalid r =
        let lost = invalidate_cookie_and_notify (invalidate_self_client self_client r) in
        if invalid then record lost { needs_to_verify_self_client = false } else r

    unfoldable pub did_detect_current_client_deletion : Registration → Registration
    did_detect_current_client_deletion r =
        let lost = invalidate_cookie_and_notify (invalidate_self_client self_client r) in
        tell Notice.new_crypt_box (record lost { clients = [] })

-- ZMClientRegistrationStatus as its header declares it, over its states `S`; what it tells its
-- delegate is in the notices.
pub record ClientRegistration (S : Type 0) : Type 0 where
  pub status : Status → Update → Option ℕ → S
  pub prepare_for_client_registration : S → S
  pub needs_to_register_client : S → Bool
  pub did_fetch_self_user : S → S
  pub did_register_client : ℕ → S → S
  pub did_fail_to_register_client : Error → S → S
  pub did_detect_current_client_deletion : S → S
  pub current_phase : S → ClientRegistrationPhase
  pub email_credentials : S → Option Credentials
  pub has_email_credentials : S → Bool

-- ZMClientClientRegistrationStatusProvider.
pub record ClientStatusProvider (S : Type 0) : Type 0 where
  pub current_client_ready_to_use : S → Bool
  pub did_detect_current_client_deletion : S → S

-- A new status; the self user is fetched later.
unfoldable pub registration_init : Status → Update → Option ℕ → Registration
registration_init login profile client_id = record {
  is_waiting_for_clients_to_be_deleted = false;
  is_waiting_for_user_clients = false;
  is_waiting_for_email_verification = false;
  needs_to_check_credentials = false;
  needs_to_verify_self_client = is_some client_id;
  login = login;
  profile = profile;
  client_id = client_id;
  self_user = none;
  self_user_email = none;
  clients = [];
  notices = [];
}

module _ (domain : ℕ) (self_client : Option ℕ → List (Option ℕ) → Option (Option ℕ)) where
  abbrev pub client_registration : ClientRegistration Registration
  client_registration = record {
    status = registration_init;
    prepare_for_client_registration = prepare_for_client_registration self_client;
    needs_to_register_client = needs_to_register_client;
    did_fetch_self_user = did_fetch_self_user self_client;
    did_register_client = did_register_client;
    did_fail_to_register_client = did_fail_to_register_client;
    did_detect_current_client_deletion = did_detect_current_client_deletion domain self_client;
    current_phase = registration_phase;
    email_credentials = email_credentials_of;
    has_email_credentials = has_email_credentials;
  }

  abbrev pub client_status_provider : ClientStatusProvider Registration
  client_status_provider = record {
    current_client_ready_to_use = current_client_ready_to_use;
    did_detect_current_client_deletion = did_detect_current_client_deletion domain self_client;
  }
