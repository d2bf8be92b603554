-- ===== src/Typing/Transcoder.antt =====
-- ZMTypingTranscoder.m in Source/Synchronization/Transcoders/: telling the backend that the user types,
-- and telling ZMTyping who else does. Conversations are numbers; times are milliseconds.
pub mod Laws
use zmessaging_cocoa.Base.{
  ℕ, suc, ◌-◌, ◌+◌, Bool, true, false, not, ◌&&◌, Option, none, some, List, [], ◌∷◌, if◌then◌else◌,
  ◌==◌, ltb,
}
use zmessaging_cocoa.Typing.Machine.{Typing, set_is_typing, tear_down, init}

-- ZMTypingEvent.
pub record TypingEvent : Type 0 where
  pub object_id : ℕ
  pub is_typing : Bool
  pub date : ℕ

-- The distance of two dates.
abbrev pub distance : ℕ → ℕ → ℕ
distance a b = (a - b) + (b - a)

abbrev pub same_truth : Bool → Bool → Bool
same_truth true b = b
same_truth false b = not b

-- ZMTypingDefaultTimeout / ZMTypingRelativeSendTimeout
abbrev pub send_timeout : ℕ
send_timeout = 12000

unfoldable pub is_recent_and_equal : TypingEvent → TypingEvent → Bool
is_recent_and_equal e other =
    same_truth other.is_typing e.is_typing
    && other.object_id == e.object_id
    && ltb (distance other.date e.date) send_timeout

pub record Transcoder : Type 0 where
  pub typing : Option Typing
  pub conversations : List (ℕ × Bool)
  pub last_sent : Option TypingEvent
  pub announced : ℕ

-- The initialiser with a ZMTyping, and the one without.
unfoldable pub new_transcoder : Option Typing → Transcoder
new_transcoder typing = record {
  typing = elim typing [ none ↦ some init | some t ↦ some t ];
  conversations = [];
  last_sent = none;
  announced = 0;
}

unfoldable pub new_without_typing : Transcoder
unfolding new_transcoder
new_without_typing = new_transcoder none

-- `tearDown`, with the ZMTyping that it tears down.
unfoldable pub tear_down_transcoder : Transcoder → Option Typing × Transcoder
unfolding tear_down
tear_down_transcoder s =
    (elim s.typing [ none ↦ none | some t ↦ some (tear_down t) ], record s { typing = none })

unfoldable pub forget : ℕ → List (ℕ × Bool) → List (ℕ × Bool)
forget c [] = []
forget c ((k, b) ∷ rest) = let others = forget c rest in if k == c then others else (k, b) ∷ others

-- `boolValue` of what stands for a conversation.
unfoldable pub typing_of : ℕ → List (ℕ × Bool) → Bool
typing_of c [] = false
typing_of c ((k, b) ∷ rest) = let found = typing_of c rest in if k == c then b else found

-- Which conversations have a remote identifier, and the first of a dictionary's keys, in the order of
-- the platform.
module _ (has_identifier : ℕ → Bool) (first_key : List (ℕ × Bool) → Option ℕ) where
  -- `addConversationForNextRequest:isTypingNumber:clearIsTyping:`
  unfoldable pub add_conversation : ℕ → Option Bool → Bool → Transcoder → Transcoder
  unfolding forget
  add_conversation c is_typing clear s =
      let cleared = record s { conversations = forget c s.conversations; last_sent = none } in
      let known = record s {
        conversations = elim is_typing [
          | none ↦ forget c s.conversations
          | some b ↦ (c, b) ∷ forget c s.conversations
        ];
        announced = suc s.announced;
      } in
      if has_identifier c then (if clear then cleared else known) else s

  -- `notifyTranscoderThatUserIsTyping:inConversation:` and `clearTranscoderState...`, with the
  -- notification that they post.
  unfoldable pub notify_typing : Bool → ℕ → Transcoder → Transcoder
  unfolding add_conversation
  notify_typing is_typing c s = add_conversation c (some is_typing) false s

  unfoldable pub clear_typing : ℕ → Transcoder → Transcoder
  unfolding add_conversation
  clear_typing c s = add_conversation c none true s

  -- `shouldClearTypingForConversation:`
  unfoldable pub should_clear_typing : ℕ → Transcoder → Transcoder
  unfolding add_conversation
  should_clear_typing c s = add_conversation c (some false) true s

  abbrev repeats : Option TypingEvent → TypingEvent → Bool
  repeats none e = false
  repeats (some sent) e = is_recent_and_equal sent e

  -- The request is the conversation, and whether the user started or stopped.
  unfoldable pub next_request : ℕ → Transcoder → Option (ℕ × Bool) × Transcoder
  unfolding forget is_recent_and_equal typing_of
  next_request now s = elim (first_key s.conversations) [
    | none ↦ (none, s)
    | some c ↦
        let b = typing_of c s.conversations in
        let event : TypingEvent = record { object_id = c; is_typing = b; date = now } in
        let taken = record s { conversations = forget c s.conversations } in
        if repeats s.last_sent event
        then (none, taken)
        else if has_identifier c
        then (some (c, b), record taken { last_sent = some event })
        else (none, taken)
  ]

-- What an update event says.
pub data TypingStatus : Type 0 where
  started stopped : TypingStatus
  other_status : TypingStatus

pub data UpdateEvent : Type 0 where
  typing_event : Option ℕ → Option ℕ → Option TypingStatus → UpdateEvent
  message_add : Option ℕ → Option ℕ → UpdateEvent
  other_event : UpdateEvent

abbrev tell : ℕ → Bool → ℕ → ℕ → Transcoder → Transcoder
tell now b u c s = elim s.typing [
  | none ↦ s
  | some t ↦ record s { typing = some (set_is_typing now b u c t) }
]

abbrev by_status : ℕ → ℕ → ℕ → TypingStatus → Transcoder → Transcoder
by_status now u c TypingStatus.started s = tell now true u c s
by_status now u c TypingStatus.stopped s = tell now false u c s
by_status now u c TypingStatus.other_status s = s

-- `processUpdateEvent:conversationsByID:`, of a sender and a conversation that may be missing.
unfoldable pub process_update_event : ℕ → UpdateEvent → Transcoder → Transcoder
process_update_event now (typing_event (some u) (some c) (some status)) s =
    by_status now u c status s
process_update_event now (typing_event (some u) (some c) none) s = s
process_update_event now (typing_event (some u) none status) s = s
process_update_event now (typing_event none c status) s = s
process_update_event now (message_add (some u) (some c)) s = tell now false u c s
process_update_event now (message_add (some u) none) s = s
process_update_event now (message_add none c) s = s
process_update_event now other_event s = s

abbrev process_each : ℕ → List UpdateEvent → Transcoder → Transcoder
process_each now [] s = s
process_each now (e ∷ es) s = process_each now es (process_update_event now e s)

unfoldable pub process_events : ℕ → List UpdateEvent → Bool → Transcoder → Transcoder
unfolding process_update_event
process_events now es live s = if live then process_each now es s else s

-- ZMTypingTranscoder, as its headers declare it: the class, its category, and its events.
pub record TypingTranscoder : Type 0 where
  pub start : Transcoder
  pub start_with_typing : Option Typing → Transcoder

pub record TypingCategory : Type 0 where
  pub notify_that_user_is_typing :
      (ℕ → Bool) → (List (ℕ × Bool) → Option ℕ) → Bool → ℕ → Transcoder → Transcoder
  pub clear_transcoder_state :
      (ℕ → Bool) → (List (ℕ × Bool) → Option ℕ) → ℕ → Transcoder → Transcoder

abbrev pub typing_transcoder : TypingTranscoder
typing_transcoder = record { start = new_without_typing; start_with_typing = new_transcoder }

abbrev pub typing_category : TypingCategory
typing_category = record {
  notify_that_user_is_typing = notify_typing;
  clear_transcoder_state = clear_typing;
}
