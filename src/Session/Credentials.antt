-- ===== src/Session/Credentials.antt =====
-- ZMCredentials.m. A text is a number, and so is the address of a credentials object, by which
-- `==` compares; the phone number validator, which may rewrite a number, is a library's.
use zmessaging_cocoa.Base.{
  ℕ, Bool, true, ◌&&◌, Option, none, some, is_some, same?, ◌==◌, if◌then◌else◌, false,
}

pub data Class : Type 0 where
  any_kind phone_kind email_kind : Class

pub record Credentials : Type 0 where
  pub address : ℕ
  pub class : Class
  pub email : Option ℕ
  pub password : Option ℕ
  pub phone_number : Option ℕ
  pub phone_number_verification_code : Option ℕ

unfoldable pub phone_credentials : (ℕ → ℕ) → ℕ → ℕ → ℕ → Credentials
phone_credentials validate address phone code = record {
  address = address;
  class = Class.phone_kind;
  email = none;
  password = none;
  phone_number = some (validate phone);
  phone_number_verification_code = some code;
}

unfoldable pub email_credentials : ℕ → Option ℕ → Option ℕ → Credentials
email_credentials address email password = record {
  address = address;
  class = Class.email_kind;
  email = email;
  password = password;
  phone_number = none;
  phone_number_verification_code = none;
}

unfoldable pub credential_with_email : Credentials → Bool
credential_with_email c = is_some c.email

unfoldable pub credential_with_phone : Credentials → Bool
credential_with_phone c = is_some c.phone_number

-- `[object isKindOfClass:[self class]]`
abbrev pub is_kind_of : Class → Class → Bool
is_kind_of _ Class.any_kind = true
is_kind_of Class.phone_kind Class.phone_kind = true
is_kind_of Class.email_kind Class.email_kind = true
is_kind_of _ _ = false

-- `[self isEqual:object]`
pub is_equal : Credentials → Credentials → Bool
is_equal self object =
    if object.address == self.address
    then true
    else is_kind_of object.class self.class
      && (same? self.email object.email
          && (same? self.password object.password
              && (same? self.phone_number object.phone_number
                  && same? self.phone_number_verification_code
                      object.phone_number_verification_code)))
