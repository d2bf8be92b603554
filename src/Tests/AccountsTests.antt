-- ===== src/Tests/AccountsTests.antt =====
-- Calls of the user session at concrete inputs.
use zmessaging_cocoa.Base.{true, false, none, some, [], ◌∷◌, ◌≡◌, refl, ◌==◌, same?}
use zmessaging_cocoa.States.World.{AuthenticationPhase}
use zmessaging_cocoa.Session.Codes.{UserSessionErrorCode}
use zmessaging_cocoa.Session.Errors.{Error, user_session_error}
use zmessaging_cocoa.Session.Notifications.{notify_registration_did_fail}
use zmessaging_cocoa.Session.Authentication.{RegistrationUser, Note, init, current_phase}
use zmessaging_cocoa.Session.Profile.{idle_update}
use zmessaging_cocoa.Session.Clients.{registration_init}
use zmessaging_cocoa.Session.Accounts.{Accounts, Validators, register_self_user}
use zmessaging_cocoa.Session.Accounts.Laws.{invalid_code_registers}

abbrev error_of : UserSessionErrorCode → Error
error_of c = user_session_error 1 c

-- The empty text is 0, and only the code 50 is valid.
abbrev validators : Validators
validators = record {
  is_empty = λ t. t == 0;
  password_is_valid = λ p. true;
  code_is_valid = λ c. same? c (some 50);
  validate_phone = λ p. some p;
  rewrite_phone = λ p. p;
}

abbrev fresh : Accounts
fresh = record {
  clients = registration_init (init none false) idle_update none;
  push_kit_token = some true;
  push_token = none;
  posted = [];
  self_user_from = none;
  starts = 0;
  wakes = 0;
  delayed_saves = 0;
  saves = 0;
  address_book_marked = false;
}

abbrev by_code : RegistrationUser
by_code = record {
  address = 2;
  email_address = none;
  password = none;
  phone_number = some 40;
  phone_verification_code = some 41;
  invitation_code = none;
}

abbrev after_registering : Accounts
after_registering = register_self_user 1 validators by_code fresh

invalid_code_registers_example :
    (after_registering.posted
      ≡ Note.registration
          (notify_registration_did_fail (error_of UserSessionErrorCode.needs_credentials))
        ∷ [])
    × (current_phase after_registering.clients.login ≡ AuthenticationPhase.register_with_phone)
    × (after_registering.self_user_from ≡ some by_code)
    × (after_registering.saves ≡ 1)
    × (after_registering.wakes ≡ 1)
invalid_code_registers_example =
    invalid_code_registers 1 validators by_code 40 40 41 fresh refl refl refl refl refl refl
