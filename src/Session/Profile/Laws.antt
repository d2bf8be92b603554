-- ===== src/Session/Profile/Laws.antt =====
-- ZMUserProfileUpdateStatus.m: when the credentials are offered, and that one change is pending.
use zmessaging_cocoa.Base.{
  ℕ, Bool, true, false, ◌&&◌, Option, none, some, List, [], ◌∷◌, if◌then◌else◌, ◌≡◌, refl, ap, ◌∙◌,
  arith,
}
use zmessaging_cocoa.Session.Credentials.{Credentials}
use zmessaging_cocoa.Session.Profile.{
  Update, Change, idle_update, update, updates, verified_credentials, reset_update,
  reset_email_credentials,
}

-- Was this reported since the credentials were cleared? `start` is the answer before the messages.
abbrev pub email_reported : Change → Bool → Bool
email_reported Change.did_update_email _ = true
email_reported Change.clear_credentials _ = false
email_reported _ b = b

abbrev pub password_reported : Change → Bool → Bool
password_reported Change.did_update_password _ = true
password_reported Change.clear_credentials _ = false
password_reported _ b = b

-- The credentials that were given last, unless they were cleared.
abbrev pub given : Change → Option Credentials → Option Credentials
given (Change.change_email_and_password c) _ = some c
given Change.clear_credentials _ = none
given _ c = c

abbrev pub after : {A : Type 0} → (Change → A → A) → List Change → A → A
after f [] a = a
after f (c ∷ cs) a = after f cs (f c a)

module _ (validate : ℕ → ℕ) where
  -- A part of the state that each message changes by itself.
  updates_fold :
      {A : Type 0} (part : Update → A) (f : Change → A → A)
      → ((c : Change) (u : Update) → part (update validate c u) ≡ f c (part u))
      → (cs : List Change) (u : Update) → part (updates validate cs u) ≡ after f cs (part u)
  unfolding updates
  updates_fold part f h [] u = refl
  updates_fold part f h (c ∷ cs) u =
      updates_fold part f h cs (update validate c u) ∙ ap (after f cs) (h c u)

  update-email :
      (c : Change) (u : Update)
      → (update validate c u).email_is_verified ≡ email_reported c u.email_is_verified
  unfolding update reset_update reset_email_credentials
  update-email (Change.request_phone_verification_code x) u = refl
  update-email (Change.change_phone x) u = refl
  update-email (Change.change_email_and_password x) u = refl
  update-email Change.did_request_phone_verification_code u = refl
  update-email (Change.did_fail_phone_verification_code_request x) u = refl
  update-email Change.did_verify_phone u = refl
  update-email (Change.did_fail_phone_verification x) u = refl
  update-email Change.did_update_password u = refl
  update-email Change.did_fail_password_update u = refl
  update-email Change.did_update_email u = refl
  update-email (Change.did_fail_email_update x) u = refl
  update-email Change.clear_credentials u = refl

  update-password :
      (c : Change) (u : Update)
      → (update validate c u).password_is_verified ≡ password_reported c u.password_is_verified
  unfolding update reset_update reset_email_credentials
  update-password (Change.request_phone_verification_code x) u = refl
  update-password (Change.change_phone x) u = refl
  update-password (Change.change_email_and_password x) u = refl
  update-password Change.did_request_phone_verification_code u = refl
  update-password (Change.did_fail_phone_verification_code_request x) u = refl
  update-password Change.did_verify_phone u = refl
  update-password (Change.did_fail_phone_verification x) u = refl
  update-password Change.did_update_password u = refl
  update-password Change.did_fail_password_update u = refl
  update-password Change.did_update_email u = refl
  update-password (Change.did_fail_email_update x) u = refl
  update-password Change.clear_credentials u = refl

  update-given :
      (c : Change) (u : Update)
      → (update validate c u).email_credentials_to_update ≡ given c u.email_credentials_to_update
  unfolding update reset_update reset_email_credentials
  update-given (Change.request_phone_verification_code x) u = refl
  update-given (Change.change_phone x) u = refl
  update-given (Change.change_email_and_password x) u = refl
  update-given Change.did_request_phone_verification_code u = refl
  update-given (Change.did_fail_phone_verification_code_request x) u = refl
  update-given Change.did_verify_phone u = refl
  update-given (Change.did_fail_phone_verification x) u = refl
  update-given Change.did_update_password u = refl
  update-given Change.did_fail_password_update u = refl
  update-given Change.did_update_email u = refl
  update-given (Change.did_fail_email_update x) u = refl
  update-given Change.clear_credentials u = refl

  -- Whatever messages a new status gets, it offers the credentials given last exactly if both an
  -- update of the e-mail address and one of the password were reported since they were cleared,
  -- and otherwise none; whether the reports came after those credentials were given plays no role.
  pub offered_credentials :
      (cs : List Change)
      → verified_credentials (updates validate cs idle_update) ≡ (
          if after email_reported cs false && after password_reported cs false
          then after given cs none
          else none)
  unfolding verified_credentials
  offered_credentials cs = ground (
    arith,
    updates_fold Update.email_is_verified email_reported update-email cs idle_update,
    updates_fold Update.password_is_verified password_reported update-password cs idle_update,
    updates_fold Update.email_credentials_to_update given update-given cs idle_update,
  )
