-- ===== src/Session/Accounts.antt =====
-- ZMUserSession+Authentication.m and ZMUserSession+Registration.m: what the application calls to log
-- in and to register. A grouped block is run at once. Whether a text is empty and what the data
-- model's validators answer are arguments; a validator of phone numbers may rewrite the number.
pub mod Laws
use zmessaging_cocoa.Base.{
  ℕ, suc, Bool, true, false, not, ◌&&◌, ◌||◌, Option, none, some, is_some, is_none, List, [], ◌∷◌,
  if◌then◌else◌,
}
use zmessaging_cocoa.States.World.{AuthenticationPhase, ClientRegistrationPhase}
use zmessaging_cocoa.Session.Codes.{UserSessionErrorCode}
use zmessaging_cocoa.Session.Errors.{Error, user_session_error}
use zmessaging_cocoa.Session.Credentials.{Credentials, phone_credentials}
use zmessaging_cocoa.Session.Notifications.{
  notify_authentication_did_fail, notify_authentication_did_succeed, notify_registration_did_fail,
}
use zmessaging_cocoa.Session.Authentication.{
  Status, RegistrationUser, Note, Call, current_phase, is_logged_in,
}
use zmessaging_cocoa.Session.Authentication.Steps.{step}
use zmessaging_cocoa.Session.Clients.{
  Registration, current_client_ready_to_use, prepare_for_client_registration,
}

-- What the library's validators and tests answer.
pub record Validators : Type 0 where
  pub is_empty : ℕ → Bool
  pub password_is_valid : ℕ → Bool
  pub code_is_valid : Option ℕ → Bool
  pub validate_phone : ℕ → Option ℕ  -- the number, maybe rewritten
  pub rewrite_phone : ℕ → ℕ  -- the same, if the answer is ignored

-- The session as far as these calls reach. A push token is whether it is registered; `starts`,
-- `wakes` and `delayed_saves` count the calls of `start`, the news of new requests and the saves.
pub record Accounts : Type 0 where
  pub clients : Registration
  pub push_kit_token : Option Bool
  pub push_token : Option Bool
  pub posted : List Note
  pub self_user_from : Option RegistrationUser
  pub starts : ℕ
  pub wakes : ℕ
  pub delayed_saves : ℕ
  pub saves : ℕ  -- `saveOrRollback` of the application's context
  pub address_book_marked : Bool  -- markAddressBookAsNeedingToBeUploadedInContext:

abbrev wake : Accounts → Accounts
wake a = record a { wakes = suc a.wakes }

abbrev announce : Note → Accounts → Accounts
announce n a = record a { posted = n ∷ a.posted }

abbrev unregistered_copy : Option Bool → Option Bool
unregistered_copy none = none
unregistered_copy (some t) = some false

abbrev token_is_registered : Option Bool → Bool
token_is_registered none = false
token_is_registered (some t) = t

unfoldable pub reregister_push_tokens : Accounts → Accounts
reregister_push_tokens a =
    let changed = record a {
      push_kit_token =
          if token_is_registered a.push_kit_token
          then unregistered_copy a.push_kit_token
          else a.push_kit_token;
      push_token =
          if token_is_registered a.push_token then unregistered_copy a.push_token else a.push_token;
    } in
    if token_is_registered a.push_kit_token || token_is_registered a.push_token
    then record changed { delayed_saves = suc changed.delayed_saves }
    else changed

-- `isLoggedIn` of the session.
unfoldable pub session_is_logged_in : Accounts → Bool
session_is_logged_in a = is_logged_in a.clients.login && current_client_ready_to_use a.clients

-- ZMUserSession (Registration), over states `S`; the observers are in Session.Observers.
pub record RegistrationCalls (S : Type 0) : Type 0 where
  pub registered_on_this_device : S → Bool
  pub register_self_user : RegistrationUser → S → S
  pub request_phone_verification_code_for_registration : ℕ → S → S
  pub verify_phone_number_for_registration : ℕ → ℕ → ℕ → S → S
  pub cancel_wait_for_email_verification : S → S
  pub cancel_wait_for_phone_verification : S → S

-- What ZMUserSession (Authentication) does to the session; the methods that delete the keychain and
-- the caches act on the platform's stores.
pub record AuthenticationCalls (S : Type 0) : Type 0 where
  pub check_if_logged_in : S → Bool
  pub login_with_credentials : Credentials → S → S
  pub request_phone_verification_code_for_login : ℕ → S → Bool × S

module _ (domain : ℕ) (v : Validators) where
  abbrev needs_credentials : Error
  needs_credentials = user_session_error domain UserSessionErrorCode.needs_credentials

  -- `text.length == 0`
  abbrev pub is_missing : Option ℕ → Bool
  is_missing none = true
  is_missing (some t) = v.is_empty t

  abbrev pub credentials_missing : Credentials → Bool
  credentials_missing c =
      (is_missing c.email || is_missing c.password)
      && (is_missing c.phone_number || is_missing c.phone_number_verification_code)

  -- A message to the authentication status.
  abbrev pub tell_status : Call → Accounts → Accounts
  tell_status c a = record a {
    clients = record (a.clients) { login = step domain v.rewrite_phone c a.clients.login };
  }

  module _ (self_client : Option ℕ → List (Option ℕ) → Option (Option ℕ)) where
    abbrev proceed : Accounts → Accounts
    proceed a =
        if not (current_client_ready_to_use a.clients)
        then record a { clients = prepare_for_client_registration self_client a.clients }
        else record a { starts = suc a.starts }

    unfoldable pub login_with_credentials : Credentials → Accounts → Accounts
    unfolding reregister_push_tokens session_is_logged_in
    login_with_credentials c a =
        let ready = reregister_push_tokens a in
        let prepared = proceed (tell_status (Call.prepare_for_login_with_credentials c) ready) in
        wake (
          if session_is_logged_in ready
          then wake (announce (Note.authentication notify_authentication_did_succeed) ready)
          else if credentials_missing c
          then announce (Note.authentication (notify_authentication_did_fail needs_credentials))
              ready
          else prepared)

  -- The answer is whether the number was valid.
  unfoldable pub request_code_for_login : ℕ → Accounts → Bool × Accounts
  request_code_for_login phone a = elim (v.validate_phone phone) [
    | none ↦ (false, a)
    | some p ↦ (true, wake (tell_status (Call.prepare_for_requesting_code_for_login p) a))
  ]

  abbrev pub password_invalid : Option ℕ → Bool
  password_invalid none = true
  password_invalid (some p) = not (v.password_is_valid p)

  abbrev pub phone_invalid : Option ℕ → Bool
  phone_invalid none = false
  phone_invalid (some p) = is_none (v.validate_phone p)

  abbrev refuse : Accounts → Accounts
  refuse a = announce (Note.registration (notify_registration_did_fail needs_credentials)) a

  -- The second test posts the error and goes on.
  unfoldable pub register_self_user : RegistrationUser → Accounts → Accounts
  register_self_user u a =
      let marked = record a { address_book_marked = true } in
      let warned =
        if is_none u.invitation_code
          && is_some u.phone_number
          && not (v.code_is_valid u.phone_verification_code)
        then refuse marked
        else marked in
      let updated = record warned { self_user_from = some u; saves = suc warned.saves } in
      if is_none u.phone_number && password_invalid u.password
      then refuse marked
      else if phone_invalid u.phone_number
      then refuse warned
      else wake (tell_status (Call.prepare_for_registration_of_user u) updated)

  unfoldable pub cancel_wait_for_email_verification : Accounts → Accounts
  cancel_wait_for_email_verification a = tell_status Call.cancel_waiting_for_email_verification a

  unfoldable pub request_code_for_registration : ℕ → Accounts → Accounts
  request_code_for_registration phone a =
      wake (tell_status (Call.prepare_for_requesting_code_for_registration phone) a)

  unfoldable pub verify_phone_number : ℕ → ℕ → ℕ → Accounts → Accounts
  verify_phone_number address phone code a = wake (
      tell_status
        (Call.prepare_for_registration_phone_verification
          (phone_credentials v.rewrite_phone address phone code))
        a)

  abbrev pub registration_calls : RegistrationCalls Accounts
  registration_calls = record {
    registered_on_this_device = λ a. a.clients.login.registered_on_this_device;
    register_self_user = register_self_user;
    request_phone_verification_code_for_registration = request_code_for_registration;
    verify_phone_number_for_registration = verify_phone_number;
    cancel_wait_for_email_verification = cancel_wait_for_email_verification;
    cancel_wait_for_phone_verification = λ a. a;
  }

  abbrev pub authentication_calls :
      (Option ℕ → List (Option ℕ) → Option (Option ℕ)) → AuthenticationCalls Accounts
  authentication_calls self_client = record {
    check_if_logged_in = session_is_logged_in;
    login_with_credentials = login_with_credentials self_client;
    request_phone_verification_code_for_login = request_code_for_login;
  }
