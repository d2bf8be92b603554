-- ===== src/Utility/Tracing/Codes/Logins.antt =====
-- ZMTracing.h: the documented numbers of calls and the login.
use zmessaging_cocoa.Base.{ℕ, List, [], ◌∷◌, some, ◌≡◌, refl, decode, Coded}

pub data CallEventSource : Type 0 where
  push_channel_event downstream_sync_event upstream_sync_event : CallEventSource

abbrev pub call_event_source_code : CallEventSource → ℕ
call_event_source_code CallEventSource.push_channel_event = 0
call_event_source_code CallEventSource.downstream_sync_event = 1
call_event_source_code CallEventSource.upstream_sync_event = 2

abbrev pub call_event_source_values : List CallEventSource
call_event_source_values =
    CallEventSource.push_channel_event ∷ CallEventSource.downstream_sync_event
    ∷ CallEventSource.upstream_sync_event ∷ []

pub call_event_source_found :
    (a : CallEventSource)
    → decode call_event_source_code call_event_source_values (call_event_source_code a) ≡ some a
unfolding decode
call_event_source_found CallEventSource.push_channel_event = refl
call_event_source_found _ = refl

instance pub call_event_source_coded : Coded CallEventSource
call_event_source_coded = record {
  code = call_event_source_code;
  values = call_event_source_values;
  found = call_event_source_found;
}

pub data KeychainOutcome : Type 0 where
  ok not_found error : KeychainOutcome

abbrev pub keychain_outcome_code : KeychainOutcome → ℕ
keychain_outcome_code KeychainOutcome.ok = 0
keychain_outcome_code KeychainOutcome.not_found = 1
keychain_outcome_code KeychainOutcome.error = 2

abbrev pub keychain_outcome_values : List KeychainOutcome
keychain_outcome_values =
    KeychainOutcome.ok ∷ KeychainOutcome.not_found ∷ KeychainOutcome.error ∷ []

pub keychain_outcome_found :
    (a : KeychainOutcome)
    → decode keychain_outcome_code keychain_outcome_values (keychain_outcome_code a) ≡ some a
unfolding decode
keychain_outcome_found KeychainOutcome.ok = refl
keychain_outcome_found _ = refl

instance pub keychain_outcome_coded : Coded KeychainOutcome
keychain_outcome_coded = record {
  code = keychain_outcome_code;
  values = keychain_outcome_values;
  found = keychain_outcome_found;
}

pub data LoginStateEntry : Type 0 where
  started_login_timer self_user_incomplete done_with_login entered : LoginStateEntry

abbrev pub login_state_entry_code : LoginStateEntry → ℕ
login_state_entry_code LoginStateEntry.started_login_timer = 0
login_state_entry_code LoginStateEntry.self_user_incomplete = 1
login_state_entry_code LoginStateEntry.done_with_login = 2
login_state_entry_code LoginStateEntry.entered = 3

abbrev pub login_state_entry_values : List LoginStateEntry
login_state_entry_values =
    LoginStateEntry.started_login_timer ∷ LoginStateEntry.self_user_incomplete
    ∷ LoginStateEntry.done_with_login ∷ LoginStateEntry.entered ∷ []

pub login_state_entry_found :
    (a : LoginStateEntry)
    → decode login_state_entry_code login_state_entry_values (login_state_entry_code a) ≡ some a
unfolding decode
login_state_entry_found LoginStateEntry.started_login_timer = refl
login_state_entry_found _ = refl

instance pub login_state_entry_coded : Coded LoginStateEntry
login_state_entry_coded = record {
  code = login_state_entry_code;
  values = login_state_entry_values;
  found = login_state_entry_found;
}

pub data LoginStateRequest : Type 0 where
  has_unregistered_user no_auth_center done_with_login creates_login_request : LoginStateRequest
  creates_self_user_request : LoginStateRequest

abbrev pub login_state_request_code : LoginStateRequest → ℕ
login_state_request_code LoginStateRequest.has_unregistered_user = 0
login_state_request_code LoginStateRequest.no_auth_center = 1
login_state_request_code LoginStateRequest.done_with_login = 2
login_state_request_code LoginStateRequest.creates_login_request = 3
login_state_request_code LoginStateRequest.creates_self_user_request = 4

abbrev pub login_state_request_values : List LoginStateRequest
login_state_request_values =
    LoginStateRequest.has_unregistered_user ∷ LoginStateRequest.no_auth_center
    ∷ LoginStateRequest.done_with_login ∷ LoginStateRequest.creates_login_request
    ∷ LoginStateRequest.creates_self_user_request ∷ []

pub login_state_request_found :
    (a : LoginStateRequest)
    → decode login_state_request_code login_state_request_values (login_state_request_code a)
      ≡ some a
unfolding decode
login_state_request_found LoginStateRequest.has_unregistered_user = refl
login_state_request_found _ = refl

instance pub login_state_request_coded : Coded LoginStateRequest
login_state_request_coded = record {
  code = login_state_request_code;
  values = login_state_request_values;
  found = login_state_request_found;
}
