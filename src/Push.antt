-- ===== src/Push.antt =====
-- ZMPushToken.m in Source/Data Model/Push Token/: the tokens for push notifications, how they are
-- archived, and where a context keeps them. Contents of data and texts are numbers. The keyed archive
-- of the platform is its list of keys and values; what it makes of an archive as data, `archive` and
-- `unarchive`, is a parameter.
pub mod Laws
use zmessaging_cocoa.Base.{
  ℕ, Bool, true, false, ◌&&◌, Option, none, some, List, [], ◌∷◌, ◌%◌, if◌then◌else◌, ◌==◌, same?,
}

-- ZMPushToken.
pub record PushToken : Type 0 where
  pub device_token : Option ℕ
  pub app_identifier : Option ℕ
  pub transport_type : Option ℕ
  pub fallback : Option ℕ
  pub is_registered : Bool
  pub is_marked_for_deletion : Bool

-- `initWithDeviceToken:identifier:transportType:fallback:isRegistered:`
unfoldable pub new_token : Option ℕ → Option ℕ → Option ℕ → Option ℕ → Bool → PushToken
new_token device identifier transport fallback registered = record {
  device_token = device;
  app_identifier = identifier;
  transport_type = transport;
  fallback = fallback;
  is_registered = registered;
  is_marked_for_deletion = false;
}

unfoldable pub unregistered_copy : PushToken → PushToken
unfolding new_token
unregistered_copy t = new_token t.device_token t.app_identifier t.transport_type t.fallback false

unfoldable pub for_deletion_marked_copy : PushToken → Option PushToken
for_deletion_marked_copy t =
    if t.is_registered
    then some (record t { is_registered = true; is_marked_for_deletion = true })
    else none

abbrev same_truth : Bool → Bool → Bool
same_truth true true = true
same_truth false false = true
same_truth true false = false
same_truth false true = false

-- `isEqual:`, of two tokens.
unfoldable pub equal_tokens : PushToken → PushToken → Bool
equal_tokens t u =
    same? t.device_token u.device_token
    && same? t.app_identifier u.app_identifier
    && same? t.transport_type u.transport_type
    && same_truth t.is_marked_for_deletion u.is_marked_for_deletion
    && same? t.fallback u.fallback

-- The keys and values of an archive.
pub data CoderKey : Type 0 where
  device_token_key identifier_key transport_key fallback_key : CoderKey
  is_registered_key is_marked_for_deletion_key : CoderKey

pub data CoderValue : Type 0 where
  object : ℕ → CoderValue
  flag : Bool → CoderValue

abbrev key_number : CoderKey → ℕ
key_number CoderKey.device_token_key = 0
key_number CoderKey.identifier_key = 1
key_number CoderKey.transport_key = 2
key_number CoderKey.fallback_key = 3
key_number CoderKey.is_registered_key = 4
key_number CoderKey.is_marked_for_deletion_key = 5

abbrev pub Coder : Type 0
Coder = List (CoderKey × CoderValue)

abbrev encode_if : CoderKey → Option ℕ → Coder → Coder
encode_if k none c = c
encode_if k (some v) c = (k, CoderValue.object v) ∷ c

-- `encodeWithCoder:`; the values stand in the order of the calls.
unfoldable pub encode : PushToken → Coder
encode t = encode_if CoderKey.device_token_key t.device_token (
    encode_if CoderKey.identifier_key t.app_identifier (
      encode_if CoderKey.transport_key t.transport_type (
        encode_if CoderKey.fallback_key t.fallback (
          (CoderKey.is_registered_key, CoderValue.flag t.is_registered)
          ∷ (CoderKey.is_marked_for_deletion_key, CoderValue.flag t.is_marked_for_deletion)
          ∷ []))))

-- `decodeObjectOfClass:forKey:` and `decodeBoolForKey:`, of a key that may be missing.
unfoldable pub decode_object : CoderKey → Coder → Option ℕ
decode_object k [] = none
decode_object k ((j, CoderValue.object v) ∷ c) =
    let found = decode_object k c in if key_number j == key_number k then some v else found
decode_object k ((j, CoderValue.flag b) ∷ c) = decode_object k c

unfoldable pub decode_flag : CoderKey → Coder → Bool
decode_flag k [] = false
decode_flag k ((j, CoderValue.object v) ∷ c) = decode_flag k c
decode_flag k ((j, CoderValue.flag b) ∷ c) =
    let found = decode_flag k c in if key_number j == key_number k then b else found

-- `initWithCoder:`
unfoldable pub decode : Coder → PushToken
unfolding decode_object decode_flag
decode c = record {
  device_token = decode_object CoderKey.device_token_key c;
  app_identifier = decode_object CoderKey.identifier_key c;
  transport_type = decode_object CoderKey.transport_key c;
  fallback = decode_object CoderKey.fallback_key c;
  is_registered = decode_flag CoderKey.is_registered_key c;
  is_marked_for_deletion = decode_flag CoderKey.is_marked_for_deletion_key c;
}

-- Where a context keeps one token: the metadata of the store, and its own copy with the data of
-- which it was made.
pub record Slot : Type 0 where
  pub metadata : Option ℕ
  pub cached_data : Option ℕ
  pub cached_token : Option PushToken

module _ (archive : Coder → ℕ) (unarchive : ℕ → Option Coder) where
  abbrev pub token_in : ℕ → Option PushToken
  token_in d = elim (unarchive d) [ none ↦ none | some c ↦ some (decode c) ]

  abbrev fetched : ℕ → Slot → Option PushToken × Slot
  fetched d s = (token_in d, record s { cached_data = some d; cached_token = token_in d })

  -- `pushToken` and `pushKitToken`
  unfoldable pub get_token : Slot → Option PushToken × Slot
  unfolding decode
  get_token s = elim s.metadata [
    | none ↦ (none, s)
    | some d ↦
        if same? (some d) s.cached_data
        then (elim s.cached_token [ none ↦ fetched d s | some t ↦ (some t, s) ])
        else fetched d s
  ]

  -- `setPushToken:` and `setPushKitToken:`
  unfoldable pub set_token : Option PushToken → Slot → Slot
  unfolding encode
  set_token none s = record { metadata = none; cached_data = none; cached_token = none }
  set_token (some t) s = record {
    metadata = some (archive (encode t));
    cached_data = some (archive (encode t));
    cached_token = some t;
  }

-- The tokens of a context.
pub record Tokens : Type 0 where
  pub push_token : Slot
  pub push_kit_token : Slot

abbrev and_byte : ℕ → Option (List ℕ) → Option (List ℕ)
and_byte v none = none
and_byte v (some bytes) = some (v % 256 ∷ bytes)

-- The loop of `zmDeviceTokenData`; `scan` is the platform's `sscanf` of two bytes with "%x".
unfoldable pub token_bytes : (ℕ → ℕ → Option ℕ) → List ℕ → Option (List ℕ)
token_bytes scan [] = some []
token_bytes scan (a ∷ []) = some []
token_bytes scan (a ∷ b ∷ bytes) =
    let rest = token_bytes scan bytes in elim (scan a b) [ none ↦ none | some v ↦ and_byte v rest ]

-- `zmDeviceTokenData`, of a text with its length and its bytes in UTF-8.
unfoldable pub device_token_data : (ℕ → ℕ → Option ℕ) → ℕ → List ℕ → Option (List ℕ)
unfolding token_bytes
device_token_data scan length bytes = if (length % 2) == 0 then token_bytes scan bytes else none

-- The interfaces of the header: tokens, contexts and texts.
pub record PushTokens : Type 0 where
  pub create : Option ℕ → Option ℕ → Option ℕ → Option ℕ → Bool → PushToken
  pub unregistered : PushToken → PushToken
  pub for_deletion_marked : PushToken → Option PushToken

pub record ContextTokens : Type 0 where
  pub get_push_token : Tokens → Option PushToken × Tokens
  pub set_push_token : Option PushToken → Tokens → Tokens
  pub get_push_kit_token : Tokens → Option PushToken × Tokens
  pub set_push_kit_token : Option PushToken → Tokens → Tokens

abbrev pub push_tokens : PushTokens
push_tokens = record {
  create = new_token;
  unregistered = unregistered_copy;
  for_deletion_marked = for_deletion_marked_copy;
}

abbrev in_push : Tokens → Option PushToken × Slot → Option PushToken × Tokens
in_push s (t, slot) = (t, record s { push_token = slot })

abbrev in_push_kit : Tokens → Option PushToken × Slot → Option PushToken × Tokens
in_push_kit s (t, slot) = (t, record s { push_kit_token = slot })

abbrev pub context_tokens : (Coder → ℕ) → (ℕ → Option Coder) → ContextTokens
context_tokens archive unarchive = record {
  get_push_token = λ s. in_push s (get_token archive unarchive s.push_token);
  set_push_token = λ t s. record s { push_token = set_token archive unarchive t s.push_token };
  get_push_kit_token = λ s. in_push_kit s (get_token archive unarchive s.push_kit_token);
  set_push_kit_token =
      λ t s. record s { push_kit_token = set_token archive unarchive t s.push_kit_token };
}
