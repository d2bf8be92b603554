-- ===== src/Session/Profile.antt =====
-- ZMUserProfileUpdateStatus.m: the change of a profile's e-mail address, password or phone number
-- that is under way, and the credentials it has for the client's registration. The persistent
-- metadata is in the state; notifications sent are recorded, newest first. `validate` is the phone
-- number validator's, which may rewrite a number.
pub mod Laws
use zmessaging_cocoa.Base.{
  ℕ, Bool, true, false, ◌&&◌, Option, none, some, List, [], ◌∷◌, if◌then◌else◌, is_some,
}
use zmessaging_cocoa.Session.Codes.{ProfilePhase, ProfileNotificationType}
use zmessaging_cocoa.Session.Errors.{Error}
use zmessaging_cocoa.Session.Credentials.{Credentials}
use zmessaging_cocoa.Session.Notifications.{ProfileNote, profile_note}

pub record Update : Type 0 where
  pub phone_credentials_to_update : Option Credentials
  pub email_credentials_to_update : Option Credentials
  pub email_to_update : Option ℕ
  pub password_to_update : Option ℕ
  pub phone_number_to_validate : Option ℕ
  pub email_is_verified : Bool
  pub password_is_verified : Bool
  pub notes : List ProfileNote

-- Messages of the interface.
pub data Change : Type 0 where
  request_phone_verification_code : ℕ → Change
  change_phone : Credentials → Change
  change_email_and_password : Credentials → Change
  did_request_phone_verification_code : Change
  did_fail_phone_verification_code_request : Error → Change
  did_verify_phone : Change
  did_fail_phone_verification : Error → Change
  did_update_password did_fail_password_update did_update_email : Change
  did_fail_email_update : Error → Change
  clear_credentials : Change

abbrev pub idle_update : Update
idle_update = record {
  phone_credentials_to_update = none;
  email_credentials_to_update = none;
  email_to_update = none;
  password_to_update = none;
  phone_number_to_validate = none;
  email_is_verified = false;
  password_is_verified = false;
  notes = [];
}

unfoldable pub profile_phase : Update → ProfilePhase
profile_phase u =
    if is_some u.phone_number_to_validate
    then ProfilePhase.request_phone_verification_code
    else if is_some u.phone_credentials_to_update
    then ProfilePhase.change_phone
    else if is_some u.password_to_update
    then ProfilePhase.change_password
    else if is_some u.email_to_update
    then ProfilePhase.change_email
    else ProfilePhase.idle

-- `reset`: the credentials and what is verified of them stay.
unfoldable pub reset_update : Update → Update
reset_update u = record u {
  phone_credentials_to_update = none;
  email_to_update = none;
  password_to_update = none;
  phone_number_to_validate = none;
}

unfoldable pub reset_email_credentials : Update → Update
reset_email_credentials u = record u {
  email_is_verified = false;
  password_is_verified = false;
  email_credentials_to_update = none;
}

unfoldable pub verified_credentials : Update → Option Credentials
verified_credentials u =
    if u.email_is_verified && u.password_is_verified then u.email_credentials_to_update else none

abbrev notified : ProfileNotificationType → Option Error → Update → Update
notified t e u = record u { notes = profile_note t e ∷ u.notes }

unfoldable pub update : (ℕ → ℕ) → Change → Update → Update
unfolding reset_update reset_email_credentials
update validate (Change.request_phone_verification_code p) u = record (reset_update u) {
  phone_number_to_validate = some (validate p);
}
update validate (Change.change_phone c) u = record (reset_update u) {
  phone_credentials_to_update = some c;
}
update validate (Change.change_email_and_password c) u = record (reset_update u) {
  email_credentials_to_update = some c;
  email_to_update = c.email;
  password_to_update = c.password;
}
update validate Change.did_request_phone_verification_code u =
    notified ProfileNotificationType.phone_number_verification_code_request_did_succeed none
      (reset_update u)
update validate (Change.did_fail_phone_verification_code_request e) u =
    notified ProfileNotificationType.phone_number_verification_code_request_did_fail (some e)
      (reset_update u)
update validate Change.did_verify_phone u = reset_update u
update validate (Change.did_fail_phone_verification e) u =
    notified ProfileNotificationType.phone_number_verification_did_fail (some e) (reset_update u)
update validate Change.did_update_password u = record u {
  password_to_update = none;
  password_is_verified = true;
}
update validate Change.did_fail_password_update u =
    notified ProfileNotificationType.password_update_did_fail none (reset_update u)
update validate Change.did_update_email u =
    notified ProfileNotificationType.email_did_send_verification none
      (reset_update (record u { email_is_verified = true }))
update validate (Change.did_fail_email_update e) u =
    notified ProfileNotificationType.email_update_did_fail (some e) (reset_update u)
update validate Change.clear_credentials u = reset_email_credentials u

unfoldable pub updates : (ℕ → ℕ) → List Change → Update → Update
updates validate [] u = u
updates validate (c ∷ cs) u = updates validate cs (update validate c u)
