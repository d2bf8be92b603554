-- ===== src/Tests/SessionTests.antt =====
-- Log-in, registration and profile changes at concrete inputs.
use zmessaging_cocoa.Base.{ℕ, ◌≤◌, false, none, some, List, [], ◌∷◌, ◌≡◌, refl, arith}
use zmessaging_cocoa.Session.Errors.{Error}
use zmessaging_cocoa.Session.Credentials.{Credentials, Class}
use zmessaging_cocoa.Session.Authentication.{Call, init}
use zmessaging_cocoa.Session.Authentication.Steps.{run}
use zmessaging_cocoa.Session.Authentication.Phases.{run-cookie}
use zmessaging_cocoa.Session.Authentication.Pending.{pending, run-pending, taken_phone_messages}
use zmessaging_cocoa.Session.Profile.{Change, updates, idle_update, verified_credentials}
use zmessaging_cocoa.Session.Profile.Laws.{offered_credentials}

abbrev keep : ℕ → ℕ
keep n = n

abbrev by_phone : Credentials
by_phone = record {
  address = 5;
  class = Class.phone_kind;
  email = none;
  password = none;
  phone_number = some 40;
  phone_number_verification_code = some 41;
}

abbrev by_email : Credentials
by_email = record {
  address = 6;
  class = Class.email_kind;
  email = some 42;
  password = some 43;
  phone_number = none;
  phone_number_verification_code = none;
}

abbrev taken : Error
taken = record { domain = 1; code = 7 }

run-cookie_example :
    (run 1 keep
      (Call.set_authentication_cookie_data (some 3) ∷ Call.login_succeed ∷ [])
      (init none false)).cookie
    ≡ some 3
run-cookie_example =
    run-cookie 1 keep (Call.set_authentication_cookie_data (some 3) ∷ Call.login_succeed ∷ [])
      (init none false)

run-pending_example :
    pending (run 1 keep (taken_phone_messages 40 taken by_phone) (init none false)) ≤ 1
run-pending_example =
    run-pending 1 keep (taken_phone_messages 40 taken by_phone) (init none false) refl (omega arith)

-- The second credentials are offered, though only the first were updated.
abbrev two_changes : List Change
two_changes =
    Change.change_email_and_password by_phone
    ∷ Change.did_update_password
    ∷ Change.did_update_email
    ∷ Change.change_email_and_password by_email
    ∷ []

offered_credentials_example :
    verified_credentials (updates keep two_changes idle_update) ≡ some by_email
offered_credentials_example = offered_credentials keep two_changes
